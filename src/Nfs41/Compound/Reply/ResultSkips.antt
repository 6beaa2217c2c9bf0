-- ===== src/Nfs41/Compound/Reply/ResultSkips.antt =====
-- skip_op_result takes what the grammar of a result allows, operation by operation.
use nfs_rs.Common.{
  ℕ, ◌*◌, ◌≡◌, refl, Bool, true, false, ◌&&◌, ◌||◌, not, All, leb, ◌==◌, if◌then◌else◌, arith,
  Bool-cases, Option-cases, inl, inr,
}
use nfs_rs.Assoc.{nat_eq, find, All-find}
use nfs_rs.Wire.{and_then, ◌>>=◌, ◌>>◌, advance, remaining}
use nfs_rs.Wire.Grammar.{Grammar, end}
use nfs_rs.Nfs41.Compound.Reply.Skip.{skip_var_bytes, skip_fattr4, skip_open_delegation}
use nfs_rs.Nfs41.Compound.Reply.Results.{
  void, successes, skip_failure, skip_success, skip_op_result,
}
use nfs_rs.Nfs41.Compound.Reply.Rules.{
  Skips, void-Skips, fixed-Skips, text-Skips, words-Skips, word-Skips, skip_word-Skips, last-Skips,
  never-Skips, if-Skips, eq-Skips, guard-Skips, void_then-Skips,
}
use nfs_rs.Nfs41.Compound.Reply.Session.{skip_layoutcommit_result, skip_layoutreturn_result}
use nfs_rs.Nfs41.Compound.Reply.Loops.{optional-Skips, entries-Skips}
use nfs_rs.Nfs41.Compound.Reply.Grammar.{
  no_delegation, result_grammars, failure_grammar, is_misread, success_grammar, result_grammar,
}
use nfs_rs.Nfs41.Compound.Reply.SessionSkips.{
  create_session-Skips, layoutget-Skips, exchange_id-Skips,
}

no_delegation-Skips : Skips skip_open_delegation no_delegation
unfolding skip_open_delegation no_delegation
no_delegation-Skips = word-Skips λ kind. if-Skips (kind == 0) void-Skips (
    if-Skips (kind == 1) never-Skips (
      if-Skips (kind == 2) never-Skips (
        if-Skips (kind == 3)
          (word-Skips λ why.
            if-Skips (why == 1 || why == 2) (last-Skips (skip_word-Skips void-Skips)) void-Skips)
          never-Skips)))

abbrev Exact : ℕ → Grammar → Type 0
Exact opcode g = Skips (skip_success (find opcode successes)) g

successes-Skips : All (λ entry. Exact entry.0 entry.1) result_grammars
unfolding successes skip_success find result_grammars skip_fattr4 skip_layoutcommit_result
    skip_layoutreturn_result
successes-Skips = (
  void-Skips,
  (
    void-Skips,
    (
      void-Skips,
      (
        void-Skips,
        (
          last-Skips (text-Skips void-Skips),
          (
            void-Skips,
            (
              void-Skips,
              (
                void-Skips,
                (
                  void-Skips,
                  (
                    void-Skips,
                    (
                      void-Skips,
                      (
                        void-Skips,
                        (
                          void-Skips,
                          (
                            void-Skips,
                            (
                              void-Skips,
                              (
                                last-Skips (fixed-Skips void-Skips 36),
                                (
                                  last-Skips (text-Skips void-Skips),
                                  (
                                    words-Skips (last-Skips (text-Skips void-Skips)),
                                    (
                                      last-Skips (words-Skips void-Skips),
                                      (
                                        last-Skips (fixed-Skips void-Skips 8),
                                        (
                                          skip_word-Skips (last-Skips (text-Skips void-Skips)),
                                          (
                                            last-Skips (fixed-Skips void-Skips 16),
                                            (
                                              last-Skips (fixed-Skips void-Skips 8),
                                              (
                                                last-Skips (text-Skips void-Skips),
                                                (
                                                  fixed-Skips
                                                      (fixed-Skips
                                                        (skip_word-Skips
                                                          (words-Skips no_delegation-Skips))
                                                        20)
                                                      16,
                                                  (
                                                    last-Skips (fixed-Skips void-Skips 16),
                                                    (
                                                      last-Skips (fixed-Skips void-Skips 16),
                                                      (
                                                        void-Skips,
                                                        (
                                                          last-Skips (fixed-Skips void-Skips 16),
                                                          (
                                                            word-Skips (λ n.
                                                            last-Skips
                                                            (fixed-Skips void-Skips (n * 4))),
                                                            (
                                                            fixed-Skips
                                                            (last-Skips (words-Skips void-Skips))
                                                            20,
                                                            (
                                                            last-Skips (fixed-Skips void-Skips 20),
                                                            (
                                                            fixed-Skips
                                                            (last-Skips (fixed-Skips void-Skips 20))
                                                            20,
                                                            (
                                                            last-Skips (fixed-Skips void-Skips 20),
                                                            (
                                                            skip_word-Skips (
                                                            text-Skips
                                                            (last-Skips (words-Skips void-Skips))),
                                                            (
                                                            last-Skips (fixed-Skips void-Skips 24),
                                                            (
                                                            fixed-Skips (entries-Skips 65536) 8,
                                                            (
                                                            exchange_id-Skips,
                                                            (
                                                            create_session-Skips,
                                                            (
                                                            layoutget-Skips,
                                                            (
                                                            word-Skips (λ more.
                                                            optional-Skips (not (more == 0)) 8),
                                                            (
                                                            word-Skips (λ more.
                                                            if-Skips (not (more == 0))
                                                            (last-Skips (fixed-Skips void-Skips 16))
                                                            void-Skips),
                                                            tt,
                                                            ),
                                                            ),
                                                            ),
                                                            ),
                                                            ),
                                                            ),
                                                            ),
                                                            ),
                                                            ),
                                                            ),
                                                            ),
                                                            ),
                                                          ),
                                                        ),
                                                      ),
                                                    ),
                                                  ),
                                                ),
                                              ),
                                            ),
                                          ),
                                        ),
                                      ),
                                    ),
                                  ),
                                ),
                              ),
                            ),
                          ),
                        ),
                      ),
                    ),
                  ),
                ),
              ),
            ),
          ),
        ),
      ),
    ),
  ),
)

skip_success-Skips :
    (opcode : ℕ)
    → Skips (skip_success (find opcode successes)) (success_grammar (find opcode result_grammars))
unfolding success_grammar
skip_success-Skips opcode = elim (Option-cases (find opcode result_grammars)) [
  | inl gone ↦ rw gone never-Skips
  | inr (g, hit) ↦ rw hit (All-find Exact opcode result_grammars successes-Skips hit)
]

-- The reader takes no bytes for an error that is not LOCK with 10012.
plain-Skips :
    (a b : Bool)
    → (a && b) ≡ false
    → Skips
        (remaining >>= λ left.
          if a && (b && leb 28 left) then (advance 28 >> skip_var_bytes) else void)
        end
unfolding ◌>>=◌ and_then remaining
plain-Skips false b h = eq-Skips (λ s. refl) void-Skips
plain-Skips true false h = eq-Skips (λ s. refl) void-Skips
plain-Skips true true h = absurd (ground (arith, h))

skip_failure-Skips :
    (opcode status : ℕ)
    → is_misread opcode status ≡ false
    → Skips (skip_failure opcode status) (failure_grammar opcode status)
unfolding skip_failure failure_grammar is_misread
skip_failure-Skips opcode status h =
    let locked : (opcode == 12 && status == 10012) ≡ false = ground (arith, h) in
    let denied : ((opcode == 12 || opcode == 13) && status == 10010) ≡ false = ground (arith, h) in
    let small : (opcode == 47 && status == 10005) ≡ false = ground (arith, h) in
    let later : (opcode == 50 && status == 10058) ≡ false = ground (arith, h) in
    guard-Skips _ (opcode == 60 && status == 10094) (elim (Bool-cases (opcode == 34)) [
      | inl t ↦ rw t (words-Skips (plain-Skips (opcode == 12) (status == 10012) locked))
      | inr f ↦
          rw (f, denied, small, later)
            (void_then-Skips (plain-Skips (opcode == 12) (status == 10012) locked))
    ])

pub skip_op_result-Skips :
    (opcode status : ℕ)
    → is_misread opcode status ≡ false
    → Skips (skip_op_result opcode status) (result_grammar opcode status)
unfolding skip_op_result result_grammar
skip_op_result-Skips opcode status h =
    if-Skips (not (status == 0)) (skip_failure-Skips opcode status h) (skip_success-Skips opcode)
