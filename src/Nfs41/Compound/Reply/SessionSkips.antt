-- ===== src/Nfs41/Compound/Reply/SessionSkips.antt =====
-- What the decoder takes of the results of EXCHANGE_ID, CREATE_SESSION and LAYOUTGET.
use nfs_rs.Common.{◌*◌, ltb, ◌==◌, if◌then◌else◌}
use nfs_rs.Errors.{xdr}
use nfs_rs.Assoc.{nat_eq}
use nfs_rs.Wire.{Reader, ◌>>=◌, ◌>>◌, fail}
use nfs_rs.Wire.Grammar.{Grammar, never, word_then, fixed_then, text_then, words_then}
use nfs_rs.Nfs41.Compound.Reply.Skip.{skip, checked_u32, skip_var_bytes, skip_bitmap}
use nfs_rs.Nfs41.Compound.Reply.Results.{void}
use nfs_rs.Nfs41.Compound.Reply.Rules.{
  Skips, void-Skips, fixed-Skips, text-Skips, words-Skips, word-Skips, skip_word-Skips, last-Skips,
  never-Skips, if-Skips, void_then-Skips,
}
use nfs_rs.Nfs41.Compound.Reply.Session.{
  times, skip_ssv, skip_protect, skip_impl_id, skip_exchange_id_result, skip_channel_attrs,
  skip_create_session_result, skip_layout_segment, skip_layoutget_result,
}
use nfs_rs.Nfs41.Compound.Reply.Loops.{assoc-Skips, if_then-Skips, times-Skips, room-Skips}
use nfs_rs.Nfs41.Compound.Reply.Grammar.{
  iterate, server_owner, exchange_id_result, create_session_result, layoutget_result,
}

channel-Skips :
    (l : Reader (Unit {0})) (g : Grammar)
    → Skips l g
    → Skips (skip_channel_attrs >> l) (fixed_then 24 (word_then λ n. fixed_then (n * 4) g))
unfolding skip_channel_attrs
channel-Skips l g p =
    assoc-Skips l (skip 24) (λ _. checked_u32 >>= λ n. skip (n * 4))
      (fixed-Skips
        (assoc-Skips l checked_u32 (λ n. skip (n * 4)) (word-Skips λ n. fixed-Skips p (n * 4))) 24)

pub create_session-Skips : Skips skip_create_session_result create_session_result
unfolding skip_create_session_result create_session_result
create_session-Skips =
    fixed-Skips (last-Skips (times-Skips skip_channel_attrs void channel-Skips 2 void-Skips)) 24

segment-Skips :
    (l : Reader (Unit {0})) (g : Grammar)
    → Skips l g
    → Skips (skip_layout_segment >> l) (fixed_then 24 (text_then g))
unfolding skip_layout_segment
segment-Skips l g p = assoc-Skips l (skip 24) (λ _. skip_var_bytes) (fixed-Skips (text-Skips p) 24)

pub layoutget-Skips : Skips skip_layoutget_result layoutget_result
unfolding skip_layoutget_result layoutget_result
layoutget-Skips = room-Skips 4 16 _ (
    skip_word-Skips (
      fixed-Skips
        (word-Skips λ n.
          if-Skips (ltb 1024 n) never-Skips
            (last-Skips (times-Skips skip_layout_segment void segment-Skips n void-Skips)))
        16))

impl_id-Skips :
    (l : Reader (Unit {0})) (g : Grammar)
    → Skips l g
    → Skips (skip_impl_id >> l) (text_then (text_then (fixed_then 12 g)))
unfolding skip_impl_id
impl_id-Skips l g p =
    assoc-Skips l skip_var_bytes (λ _. skip_var_bytes >> skip 12)
      (text-Skips (assoc-Skips l skip_var_bytes (λ _. skip 12) (text-Skips (fixed-Skips p 12))))

-- What stands behind the protection.
owner_reader : Reader (Unit {0})
owner_reader =
    skip 8
    >> (skip_var_bytes
        >> (skip_var_bytes
            >> (checked_u32 >>= λ n. if ltb 1 n then fail xdr else times n skip_impl_id)))

owner-Skips : Skips owner_reader server_owner
unfolding owner_reader server_owner
owner-Skips =
    fixed-Skips
      (text-Skips (
        text-Skips (
          word-Skips λ n.
            if-Skips (ltb 1 n) never-Skips
              (last-Skips (times-Skips skip_impl_id void impl_id-Skips n void-Skips)))))
      8

ssv-Skips :
    (l : Reader (Unit {0})) (g : Grammar)
    → Skips l g
    → Skips (skip_ssv >> l) (
        words_then (
          words_then
            (fixed_then 16 (word_then λ nh. if ltb 64 nh then never else iterate nh text_then g))))
unfolding skip_ssv
ssv-Skips l g p = assoc-Skips l skip_bitmap _ (
    words-Skips (
      assoc-Skips l skip_bitmap _ (
        words-Skips (
          assoc-Skips l (skip 16) _ (
            fixed-Skips
              (assoc-Skips l checked_u32 _ (
                word-Skips λ nh.
                  if_then-Skips _ _ _ (ltb 64 nh) never-Skips
                    (times-Skips skip_var_bytes l (λ k e q. text-Skips q) nh p)))
              16)))))

pub exchange_id-Skips : Skips skip_exchange_id_result exchange_id_result
unfolding skip_exchange_id_result exchange_id_result owner_reader skip_protect
exchange_id-Skips =
    fixed-Skips
      (assoc-Skips owner_reader checked_u32 _ (
        word-Skips λ sp. if_then-Skips _ _ _ (sp == 0) (void_then-Skips owner-Skips) (
          if_then-Skips _ _ _ (sp == 1)
            (assoc-Skips owner_reader skip_bitmap (λ _. skip_bitmap)
              (words-Skips (words-Skips owner-Skips)))
            (if_then-Skips _ _ _ (sp == 2) (ssv-Skips owner_reader server_owner owner-Skips)
              never-Skips))))
      16
