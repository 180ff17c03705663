-- ===== src/Guard/Granted.antt =====
-- plugins/fusion/scripts/lib/guard/write-events.mjs, `handleWrite`: a write that is let
-- through stays within the budget.
use claude_code_fusion.Common.{
  ℕ, zero, suc, ◌+◌, ◌≤◌, ◌<◌, ◌≡◌, refl, Bool, true, Option, none, some, arith, if◌then◌else◌, inl,
  inr, Bool-cases, Option-cases, All, All-append,
}
use claude_code_fusion.Common.Text.{Text}
use claude_code_fusion.Guard.Settings.{Settings}
use claude_code_fusion.Guard.State.{GuardState, total_dispatches}
use claude_code_fusion.Guard.Write.{
  Write, Relief, tail_allowed, zero_dispatch_softened, is_tail, is_tail_allowed,
  is_zero_dispatch_allowed, relief_of, is_pending, is_due, count_write, advise_write, pending_of,
  decide_write,
}
use claude_code_fusion.Guard.Limits.{first_window, OfEpoch, InFirst, InBudget, FileInBudget}

advise_write-InBudget :
    (cfg : Settings) (s : GuardState) → InBudget cfg s → InBudget cfg (advise_write cfg s)
unfolding advise_write
advise_write-InBudget cfg s h =
    elim (Bool-cases (is_due cfg s.writes_since_dispatch s.advised_multiples)) [
      | inl y ↦ rw y (record { tail = h.tail; window = h.window })
      | inr n ↦ rw n h
    ]

-- What a verdict rests on.
abbrev Granted : Settings → GuardState → Option Relief → Type 0
Granted cfg s none = s.writes_since_dispatch < cfg.budget
Granted cfg s (some tail_allowed) = s.tail_writes_since_dispatch < cfg.tail_allowance
Granted cfg s (some zero_dispatch_softened) =
    (total_dispatches s.dispatches ≡ 0) × (s.write_count < cfg.zero_dispatch_writes)

relief_of-Granted :
    (cfg : Settings) (w : Write) (s : GuardState) (relief : Option Relief)
    → cfg.strict ≡ true
    → relief_of cfg w s ≡ some relief
    → Granted cfg s relief
unfolding relief_of is_tail_allowed is_zero_dispatch_allowed
relief_of-Granted cfg w s none strict h = ground arith
relief_of-Granted cfg w s (some tail_allowed) strict h = ground arith
relief_of-Granted cfg w s (some zero_dispatch_softened) strict h = ground arith

pending_of-OfEpoch :
    (w : Write) (epoch : ℕ) (tail : Bool) (id : Option Text)
    → All (OfEpoch epoch) (pending_of w epoch tail id)
pending_of-OfEpoch w epoch tail none = tt
pending_of-OfEpoch w epoch tail (some id) = (refl, tt)

-- A write that is let through on a verdict.
count_write-InFirst :
    (cfg : Settings) (w : Write) (s : GuardState) (relief : Option Relief) (n : ℕ)
    → Granted cfg s relief
    → total_dispatches s.dispatches ≡ n
    → InFirst cfg s n
    → InFirst cfg (count_write w relief s) n
unfolding count_write
count_write-InFirst cfg w s relief zero g e (count, window, epochs) = (
  omega arith,
  in_window relief g,
  All-append (OfEpoch s.dispatch_epoch) s.pending_writes _
      (epochs, pending_of-OfEpoch w s.dispatch_epoch (is_tail relief) w.id),
)
  where
    in_window :
        (r : Option Relief)
        → Granted cfg s r
        → suc s.writes_since_dispatch
          ≤ first_window cfg
            + (if is_tail r then suc s.tail_writes_since_dispatch else s.tail_writes_since_dispatch)
    in_window none k = ground arith
    in_window (some tail_allowed) k = ground arith
    in_window (some zero_dispatch_softened) k = ground arith
count_write-InFirst cfg w s none (suc n) g e i = ground arith
count_write-InFirst cfg w s (some tail_allowed) (suc n) g e i = ground arith
count_write-InFirst cfg w s (some zero_dispatch_softened) (suc n) (z, g) e i = absurd (omega arith)

count_write-InBudget :
    (cfg : Settings) (w : Write) (s : GuardState) (relief : Option Relief)
    → Granted cfg s relief
    → InBudget cfg s
    → InBudget cfg (count_write w relief s)
unfolding count_write
count_write-InBudget cfg w s relief g h = record {
  tail = in_slots relief g;
  window = count_write-InFirst cfg w s relief (total_dispatches s.dispatches) g refl h.window;
}
  where
    in_slots :
        (r : Option Relief)
        → Granted cfg s r
        → (if is_tail r then suc s.tail_writes_since_dispatch else s.tail_writes_since_dispatch)
          ≤ cfg.tail_allowance
    in_slots none k = h.tail
    in_slots (some tail_allowed) k = omega arith
    in_slots (some zero_dispatch_softened) k = h.tail

pub decide_write-FileInBudget :
    (cfg : Settings) (w : Write) (s : GuardState)
    → cfg.strict ≡ true
    → InBudget cfg s
    → FileInBudget cfg (decide_write cfg w s).0
unfolding decide_write
decide_write-FileInBudget cfg w s strict h =
    elim (Bool-cases (is_pending w.id w.tool s.pending_writes)) [
      | inl y ↦ rw y tt
      | inr n ↦ rw n (elim (Option-cases (relief_of cfg w s)) [
        | inl d ↦ rw d tt
        | inr (relief, e) ↦ rw e (
            advise_write-InBudget cfg (count_write w relief s)
              (count_write-InBudget cfg w s relief (relief_of-Granted cfg w s relief strict e) h))
      ])
    ]
