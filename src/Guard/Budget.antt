-- ===== src/Guard/Budget.antt =====
-- plugins/fusion/scripts/lib/guard/write-events.mjs, `handleWrite`: every step on the state
-- of the guard stays within the budget.
use mathlib.Core.Path.{subst}
use claude_code_fusion.Common.{
  sym, ℕ, suc, ◌≡◌, Bool, true, not, Option, none, some, List, [], ◌∷◌, arith,
}
use claude_code_fusion.Common.Text.{Text}
use claude_code_fusion.Guard.Settings.{Settings}
use claude_code_fusion.Guard.State.{
  GuardState, normalize_state, total_dispatches, reset_write_window,
}
use claude_code_fusion.Guard.Limits.{InFirst, InBudget, FileInBudget}
use claude_code_fusion.Guard.Granted.{decide_write-FileInBudget}
use claude_code_fusion.Guard.Refunds.{settle_write-FileInBudget}
use claude_code_fusion.Guard.Dispatch.{
  Dispatch, launch_dispatch, confirm_launched, confirm_dispatch, confirm_found, count_dispatch,
  lane_of,
}
use claude_code_fusion.Guard.Kept.{Kept, run_hooks, run_hooks-OnFile}
use claude_code_fusion.Guard.Verify.{verify_window}
use claude_code_fusion.Guard.Bytes.{Host}
use claude_code_fusion.Guard.Calls.{HookCall, claim_advisory}

normalize_state-InBudget :
    (cfg : Settings) (s : GuardState) (now : ℕ)
    → InBudget cfg s
    → InBudget cfg (normalize_state (some s) now)
unfolding normalize_state
normalize_state-InBudget cfg s now h = record { tail = h.tail; window = h.window }

default_state-InBudget : (cfg : Settings) (now : ℕ) → InBudget cfg (normalize_state none now)
unfolding normalize_state total_dispatches
default_state-InBudget cfg now = record { tail = omega arith; window = ground arith }

pub total-count_dispatch :
    (lane : Text) (ds : List (Text × ℕ))
    → total_dispatches (count_dispatch lane ds) ≡ suc (total_dispatches ds)
unfolding total_dispatches count_dispatch
total-count_dispatch lane [] = omega arith
total-count_dispatch lane ((l, n) ∷ rest) = ground (arith, total-count_dispatch lane rest)

confirm_dispatch-InBudget :
    (cfg : Settings) (d : Dispatch) (now : ℕ) (s : GuardState)
    → InBudget cfg (confirm_dispatch d now s)
unfolding confirm_dispatch reset_write_window
confirm_dispatch-InBudget cfg d now s =
    let found = confirm_launched d s.dispatch_log in
    record {
      tail = omega arith;
      window =
          subst (InFirst cfg (confirm_found d now s found))
            (sym (total-count_dispatch (lane_of d found) s.dispatches)) (omega arith);
    }

launch_dispatch-InBudget :
    (cfg : Settings) (d : Dispatch) (now : ℕ) (s : GuardState)
    → InBudget cfg s
    → InBudget cfg (launch_dispatch d now s)
unfolding launch_dispatch
launch_dispatch-InBudget cfg d now s h = record { tail = h.tail; window = h.window }

claim_advisory-InBudget :
    (cfg : Settings) (kind signature : Text) (s : GuardState)
    → InBudget cfg s
    → InBudget cfg (claim_advisory kind signature s).1
unfolding claim_advisory
claim_advisory-InBudget cfg kind signature s h = record { tail = h.tail; window = h.window }

-- A strict posture never ends a window on a verification.
verify_window-strict :
    (strict : Bool) (s : GuardState) → strict ≡ true → verify_window (not strict) s ≡ none
unfolding verify_window
verify_window-strict strict s e = ground arith

-- Every step on the state stays within the budget.
InBudget-Kept : (cfg : Settings) → cfg.strict ≡ true → Kept cfg (InBudget cfg)
InBudget-Kept cfg strict = record {
  from_none = default_state-InBudget cfg;
  from_some = normalize_state-InBudget cfg;
  by_decide = λ w s h. decide_write-FileInBudget cfg w s strict h;
  by_settle = settle_write-FileInBudget cfg;
  by_launch = launch_dispatch-InBudget cfg;
  by_confirm = λ d now s h. confirm_dispatch-InBudget cfg d now s;
  by_claim = claim_advisory-InBudget cfg;
  by_verify = λ s h. subst (FileInBudget cfg) (sym (verify_window-strict cfg.strict s strict)) tt;
}

-- In the strict posture, whatever calls of the hook a session makes and whenever, its state file is
-- within the budget behind them: no more writes of the window are counted than the budget and the slots
-- that small edits took, those slots are within their allowance, and the same holds before the first
-- dispatch with the larger of the budget and the writes that are free of a dispatch.
pub run_hooks-FileInBudget :
    (host : Host) (cfg : Settings) (pattern : Option (Text → Bool)) (calls : List (HookCall × ℕ))
    → cfg.strict ≡ true
    → FileInBudget cfg (run_hooks host cfg pattern calls none)
run_hooks-FileInBudget host cfg pattern calls strict =
    run_hooks-OnFile host cfg pattern (InBudget cfg) (InBudget-Kept cfg strict) calls none tt
