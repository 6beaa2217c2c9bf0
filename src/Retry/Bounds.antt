-- ===== src/Retry/Bounds.antt =====
-- How often and how long an operation waits, and the errors that end the waiting.
use nfs_rs.Common.{
  ℕ, ◌+◌, ◌*◌, ◌/◌, ◌^◌, ◌≤◌, ◌<◌, min, ◌≡◌, refl, ap, ◌∙◌, subst, ◌-◌, max, All-imp, leb→le, ◌⊎◌,
  inl, inr, not, List, [], ◌∷◌, All, Option, none, some, ltb, leb, arith, Bool-cases,
}
use nfs_rs.Errors.{
  NfsError, server_busy, busy_error, RequestContext, RetryExhaustion, retry_limit, deadline,
  contains_uncertain_outcome, is_server_busy, busy_uncertain,
}
use nfs_rs.Retry.{
  Budget, Locals, Moments, max_retries, cap_deadline, new, exhausted, cancelled_read, maximum,
  wake_at, backoff,
}

-- A backoff that succeeds, where the random number is at least half the maximum and the timer does
-- not wake early: the budget had a retry left and has one fewer, the wait was at least 100 * 2 ^ n
-- milliseconds after n retries, or 2500 if that is less, and it ended before the deadline that
-- cap_deadline gives for that of the budget.
pub backoff_waits :
    (l : Locals) (m : Moments) (context : RequestContext) (source : NfsError) (b : Budget)
    → (backoff l m context source b).0 ≡ none
    → maximum b.retries / 2 ≤ m.wait
    → wake_at m (cap_deadline l b.deadline) ≤ m.woken_at
    → (b.retries < max_retries)
      × ((backoff l m context source b).1.retries ≡ b.retries + 1)
      × (m.waiting_at + min (100 * 2 ^ b.retries) 2500 ≤ m.woken_at)
      × (m.woken_at < cap_deadline l b.deadline)
unfolding backoff wake_at maximum
backoff_waits l m context source b h random timer = ground arith

-- Several backoffs on one budget, and what each returns.
abbrev pub Call : Type 0
Call = Moments × RequestContext × NfsError

pub backoff_all : Locals → List Call → Budget → List (Moments × Option NfsError) × Budget
backoff_all l [] b = ([], b)
backoff_all l ((m, context, source) ∷ calls) b =
    let r = backoff l m context source b in
    let rest = backoff_all l calls r.1 in ((m, r.0) ∷ rest.0, rest.1)

abbrev pub counted : Option NfsError → ℕ
counted none = 1
counted (some e) = 0

unfoldable pub successes : List (Moments × Option NfsError) → ℕ
successes [] = 0
successes (result ∷ results) = counted result.1 + successes results

-- A wait that succeeded ended before the instant.
unfoldable pub EndsBefore : ℕ → Moments × Option NfsError → Type 0
EndsBefore until result = counted result.1 ≡ 1 → result.0.woken_at < until

EndsBefore-weaken :
    (early late : ℕ)
    → early ≤ late
    → (result : Moments × Option NfsError) → EndsBefore early result
    → EndsBefore late result
unfolding EndsBefore
EndsBefore-weaken early late le result h e = omega (arith, h e, le)

cap_deadline_le : (l : Locals) (d : ℕ) → cap_deadline l d ≤ d
unfolding cap_deadline
cap_deadline_le l d = ground arith

backoff_counts :
    (l : Locals) (m : Moments) (context : RequestContext) (source : NfsError) (b : Budget)
    → b.retries ≤ max_retries
    → let r = backoff l m context source b in
      (r.1.retries ≤ max_retries)
      × (r.1.deadline ≡ b.deadline)
      × (counted r.0 + b.retries ≤ r.1.retries)
      × EndsBefore b.deadline (m, r.0)
unfolding backoff EndsBefore
backoff_counts l m context source b h = ground (arith, cap_deadline_le l b.deadline)

backoff_all_counts :
    (l : Locals) (calls : List Call) (b : Budget)
    → b.retries ≤ max_retries
    → (successes (backoff_all l calls b).0 + b.retries ≤ max_retries)
      × All (EndsBefore b.deadline) (backoff_all l calls b).0
unfolding backoff_all successes
backoff_all_counts l [] b h = (omega arith, tt)
backoff_all_counts l ((m, context, source) ∷ calls) b h =
    let r = backoff l m context source b in
    let (few, same, count, ends) = backoff_counts l m context source b h in
    let (total, all) = backoff_all_counts l calls r.1 few in
    (
      omega (arith, total, count),
      (ends, subst (λ d. All (EndsBefore d) (backoff_all l calls r.1).0) same all),
    )

-- Of any number of backoffs on the budget of an operation, at most 16 succeed, and each that does
-- ends within 60 seconds of the operation's start, whatever the clock, the random numbers and the
-- errors are.
pub backoff_all-new :
    (l : Locals) (now : ℕ) (calls : List Call)
    → (successes (backoff_all l calls (new l now)).0 ≤ 16)
      × All (EndsBefore (now + 60000)) (backoff_all l calls (new l now)).0
unfolding new
backoff_all-new l now calls =
    let b = new l now in
    let (few, ends) = backoff_all_counts l calls b (omega arith) in
    (
      omega (arith, few),
      All-imp (EndsBefore b.deadline) (EndsBefore (now + 60000))
          (EndsBefore-weaken b.deadline (now + 60000) (cap_deadline_le l (now + 60000)))
          (backoff_all l calls b).0 ends,
    )

-- A server-busy error that holds the rejection, for the reason that ended the waiting.
pub record Gives (l : Locals) (m : Moments) (context : RequestContext) (source : NfsError)
    (b : Budget) (error : NfsError) : Type 0 where
  pub retries : ℕ
  pub elapsed : ℕ
  pub reason : RetryExhaustion
  pub holds : error ≡ server_busy (busy_error context retries elapsed reason source)
  pub because :
      ((reason ≡ retry_limit) × (max_retries ≤ b.retries))
      ⊎ ((reason ≡ deadline) × (cap_deadline l b.deadline ≤ max m.entered_at m.woken_at))

busy_lem :
    (context : RequestContext) (retries elapsed : ℕ) (reason : RetryExhaustion) (source : NfsError)
    → (is_server_busy (server_busy (busy_error context retries elapsed reason source))
        ≡ not (contains_uncertain_outcome source))
      × (contains_uncertain_outcome (server_busy (busy_error context retries elapsed reason source))
          ≡ contains_uncertain_outcome source)
unfolding is_server_busy contains_uncertain_outcome busy_uncertain
busy_lem context retries elapsed reason source =
    elim (Bool-cases (contains_uncertain_outcome source)) [
      | inl y ↦ ground (arith, y)
      | inr n ↦ ground (arith, n)
    ]

backoff-Gives :
    (l : Locals) (m : Moments) (context : RequestContext) (source error : NfsError) (b : Budget)
    → (backoff l m context source b).0 ≡ some error
    → (error ≡ cancelled_read) ⊎ Gives l m context source b error
unfolding backoff exhausted
backoff-Gives l m context source error b h =
    elim (Bool-cases (leb (cap_deadline l b.deadline) m.entered_at)) [
      | inl late ↦ inr (record {
        retries = b.retries;
        elapsed = m.entered_at - b.started;
        reason = deadline;
        holds = ground (arith, h, late);
        because = inr (refl, omega (arith, leb→le _ _ late));
      })
      | inr early ↦ elim (Bool-cases (ltb b.retries max_retries)) [
        | inr over ↦ inr (record {
          retries = b.retries;
          elapsed = m.entered_at - b.started;
          reason = retry_limit;
          holds = ground (arith, h, early, over);
          because = inl (refl, ground (arith, over));
        })
        | inl under ↦ elim (Bool-cases m.cancelled) [
          | inl c ↦ inl (ground (arith, h, early, under, c))
          | inr c ↦ inr (record {
            retries = b.retries + 1;
            elapsed = m.woken_at - b.started;
            reason = deadline;
            holds = ground (arith, h, early, under, c);
            because = inr (refl, ground (arith, h, early, under, c));
          })
        ]
      ]
    ]

-- A backoff that fails gives the error of a cancelled read, or a server-busy error that holds the
-- rejection and names the retry limit only after 16 retries and the deadline only once the clock
-- has reached it. The server-busy error counts as busy exactly where no part of the rejection is
-- uncertain, and as uncertain exactly where the rejection is.
pub backoff_fails :
    (l : Locals) (m : Moments) (context : RequestContext) (source error : NfsError) (b : Budget)
    → (backoff l m context source b).0 ≡ some error
    → (error ≡ cancelled_read)
      ⊎ (Gives l m context source b error
          × (is_server_busy error ≡ not (contains_uncertain_outcome source))
          × (contains_uncertain_outcome error ≡ contains_uncertain_outcome source))
backoff_fails l m context source error b h = elim (backoff-Gives l m context source error b h) [
  | inl c ↦ inl c
  | inr g ↦
      let (busy, uncertain) = busy_lem context g.retries g.elapsed g.reason source in
      inr (g, ap is_server_busy g.holds ∙ busy, ap contains_uncertain_outcome g.holds ∙ uncertain)
]
