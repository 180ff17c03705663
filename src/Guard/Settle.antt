-- ===== src/Guard/Settle.antt =====
-- plugins/fusion/scripts/lib/guard/write-events.mjs, `handleWrite` behind a write: the write is confirmed
-- or taken back.
use claude_code_fusion.Common.{
  ℕ, ◌-◌, ◌*◌, Bool, not, ◌&&◌, Option, none, some, List, [], ◌∷◌, ◌++◌, leb, ◌==◌, if◌then◌else◌,
  any, keep,
}
use claude_code_fusion.Common.Text.{Text, codes, text_eq, has}
use claude_code_fusion.Guard.State.{PendingWrite, GuardState}
use claude_code_fusion.Guard.Write.{is_entry}

abbrev pub keep_entry :
    PendingWrite
    → Option (PendingWrite × List PendingWrite)
    → Option (PendingWrite × List PendingWrite)
keep_entry p none = none
keep_entry p (some (q, rest)) = some (q, p ∷ rest)

-- `findIndex` and `splice`: the first entry of the use, and the list without it.
unfoldable pub take_pending :
    Text → Text → List PendingWrite → Option (PendingWrite × List PendingWrite)
take_pending id tool [] = none
take_pending id tool (p ∷ ps) =
    if is_entry id tool p then some (p, ps) else keep_entry p (take_pending id tool ps)

unfoldable pub confirm_write : PendingWrite → GuardState → GuardState
confirm_write p s =
    if p.epoch == s.dispatch_epoch && not (has s.confirmed_path_signatures p.signature)
    then record s { confirmed_path_signatures = s.confirmed_path_signatures ++ p.signature ∷ [] }
    else s

abbrev same_target : PendingWrite → PendingWrite → Bool
same_target p q = (q.epoch == p.epoch) && text_eq q.signature p.signature

-- What a failure takes back from the window, if the write was of the window. `Math.max(0, n - 1)` is the
-- subtraction of the natural numbers.
unfoldable pub shrink_window : ℕ → PendingWrite → GuardState → GuardState
shrink_window budget p s = record s {
  writes_since_dispatch = s.writes_since_dispatch - 1;
  tail_writes_since_dispatch =
      if p.tail then s.tail_writes_since_dispatch - 1 else s.tail_writes_since_dispatch;
  written_path_signatures =
      if not (has s.confirmed_path_signatures p.signature)
        && not (any (same_target p) s.pending_writes)
      then keep (λ t. not (text_eq t p.signature)) s.written_path_signatures
      else s.written_path_signatures;
  advised_multiples =
      keep (λ m. leb (m * budget) (s.writes_since_dispatch - 1)) s.advised_multiples;
  advisory_signatures =
      keep (λ e. not (text_eq (e.0) (codes "write-budget"))) s.advisory_signatures;
}

unfoldable pub refund_write : ℕ → PendingWrite → GuardState → GuardState
refund_write budget p s =
    let t = record s {
      write_count = s.write_count - 1;
      inline_write_bytes = s.inline_write_bytes - p.bytes;
    } in
    if p.epoch == s.dispatch_epoch then shrink_window budget p t else t

pub data Outcome : Type 0 where
  succeeded failed : Outcome

abbrev pub settle_entry : ℕ → Outcome → PendingWrite → GuardState → GuardState
settle_entry budget succeeded p s = confirm_write p s
settle_entry budget failed p s = refund_write budget p s

abbrev pub settle_taken :
    ℕ → Outcome → GuardState → Option (PendingWrite × List PendingWrite) → Option GuardState
settle_taken budget outcome s none = none
settle_taken budget outcome s (some (p, rest)) =
    some (settle_entry budget outcome p (record s { pending_writes = rest }))

-- The callback under the lock; `none` writes nothing.
unfoldable pub settle_write : ℕ → Outcome → Text → Text → GuardState → Option GuardState
settle_write budget outcome id tool s =
    settle_taken budget outcome s (take_pending id tool s.pending_writes)
