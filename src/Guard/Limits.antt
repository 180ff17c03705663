-- ===== src/Guard/Limits.antt =====
-- plugins/fusion/scripts/lib/guard/write-events.mjs, `handleWrite`: the bounds that the strict
-- posture keeps.
use claude_code_fusion.Common.{
  ℕ, zero, suc, ◌+◌, ◌≤◌, ◌≡◌, Option, none, some, leb, if◌then◌else◌, All,
}
use claude_code_fusion.Guard.Settings.{Settings}
use claude_code_fusion.Guard.State.{PendingWrite, GuardState, total_dispatches}

-- The writes of a window with no dispatch at all that need no slot of the tail.
abbrev pub first_window : Settings → ℕ
first_window cfg =
    if leb cfg.budget cfg.zero_dispatch_writes then cfg.zero_dispatch_writes else cfg.budget

abbrev pub OfEpoch : ℕ → PendingWrite → Type 0
OfEpoch epoch p = p.epoch ≡ epoch

-- Until the first dispatch no write is of an earlier window.
abbrev pub InFirst : Settings → GuardState → ℕ → Type 0
InFirst cfg s zero =
    (s.writes_since_dispatch ≤ s.write_count)
    × (s.writes_since_dispatch ≤ first_window cfg + s.tail_writes_since_dispatch)
    × All (OfEpoch s.dispatch_epoch) s.pending_writes
InFirst cfg s (suc n) = s.writes_since_dispatch ≤ cfg.budget + s.tail_writes_since_dispatch

pub record InBudget (cfg : Settings) (s : GuardState) : Type 0 where
  pub tail : s.tail_writes_since_dispatch ≤ cfg.tail_allowance
  pub window : InFirst cfg s (total_dispatches s.dispatches)

-- A property of the state, of the state file if it is there.
abbrev pub OnFile : (GuardState → Type 0) → Option GuardState → Type 0
OnFile P none = Unit
OnFile P (some s) = P s

-- The state file, if it is there, is within the budget.
abbrev pub FileInBudget : Settings → Option GuardState → Type 0
FileInBudget cfg file = OnFile (InBudget cfg) file
