-- ===== src/Guard/Refunds.antt =====
-- plugins/fusion/scripts/lib/guard/write-events.mjs, `handleWrite`: a write that is confirmed or
-- taken back stays within the budget.
use claude_code_fusion.Common.{
  ℕ, zero, suc, ◌-◌, ◌≡◌, false, not, ◌&&◌, Option, none, some, List, [], ◌∷◌, arith, ◌==◌, inl,
  inr, Bool-cases, All,
}
use claude_code_fusion.Common.Text.{Text, has}
use claude_code_fusion.Guard.Settings.{Settings}
use claude_code_fusion.Guard.State.{PendingWrite, GuardState, total_dispatches}
use claude_code_fusion.Guard.Write.{is_entry}
use claude_code_fusion.Guard.Settle.{
  Outcome, succeeded, failed, take_pending, confirm_write, shrink_window, refund_write,
  settle_entry, settle_taken, settle_write, keep_entry,
}
use claude_code_fusion.Guard.Limits.{OfEpoch, InFirst, InBudget, FileInBudget}

-- The counts of the session, with one write taken back.
abbrev take_back : PendingWrite → GuardState → GuardState
take_back p s = record s {
  write_count = s.write_count - 1;
  inline_write_bytes = s.inline_write_bytes - p.bytes;
}

-- A write is taken back from the window in which it was made.
shrink_window-InFirst :
    (cfg : Settings) (p : PendingWrite) (s : GuardState) (n : ℕ)
    → InFirst cfg s n
    → InFirst cfg (shrink_window cfg.budget p (take_back p s)) n
unfolding shrink_window
shrink_window-InFirst cfg p s zero (count, window, epochs) = (omega arith, ground arith, epochs)
shrink_window-InFirst cfg p s (suc n) i = ground arith

shrink_window-InBudget :
    (cfg : Settings) (p : PendingWrite) (s : GuardState)
    → InBudget cfg s
    → InBudget cfg (shrink_window cfg.budget p (take_back p s))
unfolding shrink_window
shrink_window-InBudget cfg p s h = record {
  tail = let t = h.tail in ground arith;
  window = shrink_window-InFirst cfg p s (total_dispatches s.dispatches) h.window;
}

-- The entry is of the window, or of an earlier one that a dispatch ended.
abbrev IsKnown : ℕ → PendingWrite → ℕ → Type 0
IsKnown epoch p zero = OfEpoch epoch p
IsKnown epoch p (suc n) = Unit

earlier-InFirst :
    (cfg : Settings) (p : PendingWrite) (s : GuardState) (n : ℕ)
    → IsKnown s.dispatch_epoch p n
    → (p.epoch == s.dispatch_epoch) ≡ false
    → InFirst cfg s n
    → InFirst cfg (take_back p s) n
earlier-InFirst cfg p s zero k e i = absurd (ground arith)
earlier-InFirst cfg p s (suc n) k e i = i

refund_write-InBudget :
    (cfg : Settings) (p : PendingWrite) (s : GuardState)
    → IsKnown s.dispatch_epoch p (total_dispatches s.dispatches)
    → InBudget cfg s
    → InBudget cfg (refund_write cfg.budget p s)
unfolding refund_write
refund_write-InBudget cfg p s k h = elim (Bool-cases (p.epoch == s.dispatch_epoch)) [
  | inl y ↦ rw y (shrink_window-InBudget cfg p s h)
  | inr n ↦ rw n (record {
    tail = h.tail;
    window = earlier-InFirst cfg p s (total_dispatches s.dispatches) k n h.window;
  })
]

confirm_write-InBudget :
    (cfg : Settings) (p : PendingWrite) (s : GuardState)
    → InBudget cfg s
    → InBudget cfg (confirm_write p s)
unfolding confirm_write
confirm_write-InBudget cfg p s h =
    elim (Bool-cases
      (p.epoch == s.dispatch_epoch && not (has s.confirmed_path_signatures p.signature))) [
        | inl y ↦ rw y (record { tail = h.tail; window = h.window })
        | inr n ↦ rw n h
      ]

settle_entry-InBudget :
    (cfg : Settings) (outcome : Outcome) (p : PendingWrite) (s : GuardState)
    → IsKnown s.dispatch_epoch p (total_dispatches s.dispatches)
    → InBudget cfg s
    → InBudget cfg (settle_entry cfg.budget outcome p s)
settle_entry-InBudget cfg succeeded p s k h = confirm_write-InBudget cfg p s h
settle_entry-InBudget cfg failed p s k h = refund_write-InBudget cfg p s k h

-- What holds of all entries holds of the one that is taken and of those that are left.
abbrev pub AllTaken : (PendingWrite → Type 0) → Option (PendingWrite × List PendingWrite) → Type 0
AllTaken P none = Unit
AllTaken P (some (p, rest)) = P p × All P rest

keep_entry-AllTaken :
    (P : PendingWrite → Type 0) (q : PendingWrite) (m : Option (PendingWrite × List PendingWrite))
    → P q
    → AllTaken P m
    → AllTaken P (keep_entry q m)
keep_entry-AllTaken P q none a h = tt
keep_entry-AllTaken P q (some (p, rest)) a (b, more) = (b, (a, more))

pub take_pending-AllTaken :
    (P : PendingWrite → Type 0) (id tool : Text) (ps : List PendingWrite)
    → All P ps
    → AllTaken P (take_pending id tool ps)
unfolding take_pending
take_pending-AllTaken P id tool [] a = tt
take_pending-AllTaken P id tool (q ∷ ps) (a, more) = elim (Bool-cases (is_entry id tool q)) [
  | inl y ↦ rw y (a, more)
  | inr n ↦ rw n (
      keep_entry-AllTaken P q (take_pending id tool ps) a (take_pending-AllTaken P id tool ps more))
]

All-IsKnown : (epoch n : ℕ) (ps : List PendingWrite) → All (λ p. IsKnown epoch p (suc n)) ps
All-IsKnown epoch n [] = tt
All-IsKnown epoch n (p ∷ ps) = (tt, All-IsKnown epoch n ps)

InFirst-IsKnown :
    (cfg : Settings) (s : GuardState) (n : ℕ)
    → InFirst cfg s n
    → All (λ p. IsKnown s.dispatch_epoch p n) s.pending_writes
InFirst-IsKnown cfg s zero (count, window, epochs) = epochs
InFirst-IsKnown cfg s (suc n) i = All-IsKnown s.dispatch_epoch n s.pending_writes

InFirst-rest :
    (cfg : Settings) (s : GuardState) (rest : List PendingWrite) (n : ℕ)
    → InFirst cfg s n
    → All (λ p. IsKnown s.dispatch_epoch p n) rest
    → InFirst cfg (record s { pending_writes = rest }) n
InFirst-rest cfg s rest zero (count, window, epochs) a = (count, window, a)
InFirst-rest cfg s rest (suc n) i a = i

settle_taken-FileInBudget :
    (cfg : Settings) (outcome : Outcome) (s : GuardState)
    (m : Option (PendingWrite × List PendingWrite))
    → AllTaken (λ p. IsKnown s.dispatch_epoch p (total_dispatches s.dispatches)) m
    → InBudget cfg s
    → FileInBudget cfg (settle_taken cfg.budget outcome s m)
settle_taken-FileInBudget cfg outcome s none a h = tt
settle_taken-FileInBudget cfg outcome s (some (p, rest)) (k, more) h =
    settle_entry-InBudget cfg outcome p (record s { pending_writes = rest }) k
      (record {
        tail = h.tail;
        window = InFirst-rest cfg s rest (total_dispatches s.dispatches) h.window more;
      })

pub settle_write-FileInBudget :
    (cfg : Settings) (outcome : Outcome) (id tool : Text) (s : GuardState)
    → InBudget cfg s
    → FileInBudget cfg (settle_write cfg.budget outcome id tool s)
unfolding settle_write
settle_write-FileInBudget cfg outcome id tool s h =
    let n = total_dispatches s.dispatches in
    settle_taken-FileInBudget cfg outcome s (take_pending id tool s.pending_writes)
      (take_pending-AllTaken (λ p. IsKnown s.dispatch_epoch p n) id tool s.pending_writes
        (InFirst-IsKnown cfg s n h.window))
      h
