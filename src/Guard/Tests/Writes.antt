-- ===== src/Guard/Tests/Writes.antt =====
-- Single writes and dispatches of plugins/fusion/scripts/lib/guard, and the theorems at such inputs.
use claude_code_fusion.Common.{ℕ, ◌≡◌, refl, true, false, none, some, [], ◌∷◌, any, arith}
use claude_code_fusion.Common.Text.{Text, codes, text_eq}
use claude_code_fusion.Guard.State.{GuardState, LogEntry, launched, default_state, normalize_state}
use claude_code_fusion.Guard.Write.{is_pending, Write, denied, decide_write}
use claude_code_fusion.Guard.Settle.{failed, settle_write}
use claude_code_fusion.Guard.Dispatch.{
  Dispatch, confirm_entry, confirm_launched, confirm_dispatch, by_id,
}
use claude_code_fusion.Guard.Calls.{write_of}
use claude_code_fusion.Guard.Hooks.{run_hook}
use claude_code_fusion.Guard.Returned.{
  lets_through, IsBack, decide_write-confirm_dispatch, settle_write-IsBack,
}
use claude_code_fusion.Guard.Refusals.{stops}
use claude_code_fusion.Guard.Launches.{confirm_launched-append}
use claude_code_fusion.Guard.Closed.{IsAsking, IsCovered, executed, execute_hook-IsCovered}
use claude_code_fusion.Guard.Tests.{guard_code, toy_host, strict_settings, write_call}

-- A state at the end of its budget.
abbrev spent : GuardState
spent = record (default_state 0) { write_count = 2; writes_since_dispatch = 2 }

abbrev asked : Write
asked = record {
  tool = codes "Write";
  id = some (codes "w3");
  bytes = 4;
  replacement = none;
  signature = codes "a.txt";
}

abbrev to_codex : Dispatch
to_codex = record {
  lane = codes "codex";
  tool_use_id = some (codes "d1");
  message_id = none;
  subagent_type = none;
}

spent_is_denied : (decide_write strict_settings asked spent).1 ≡ denied 2 0
unfolding guard_code
spent_is_denied = refl

decide_write-confirm_dispatch_example :
    lets_through (decide_write strict_settings asked (confirm_dispatch to_codex 9 spent)) ≡ true
unfolding any
decide_write-confirm_dispatch_example =
    decide_write-confirm_dispatch strict_settings asked to_codex 9 spent (omega arith) refl

-- What is written when the write is let through.
abbrev written : GuardState
written = record (default_state 0) {
  write_count = 1;
  writes_since_dispatch = 1;
  inline_write_bytes = 4;
  written_path_signatures = codes "a.txt" ∷ [];
  pending_writes =
      record {
        id = codes "w3";
        tool = codes "Write";
        epoch = 0;
        bytes = 4;
        signature = codes "a.txt";
        tail = false;
      }
      ∷ [];
}

asked_is_written : (decide_write strict_settings asked (default_state 0)).0 ≡ some written
unfolding guard_code
asked_is_written = refl

settle_write-IsBack_example :
    (u : GuardState) × (settle_write 2 failed (codes "w3") (codes "Write") written ≡ some u)
    × IsBack (default_state 0) u
settle_write-IsBack_example =
    settle_write-IsBack strict_settings asked (codes "w3") (default_state 0) written refl
      asked_is_written

third_is_stopped :
    stops (run_hook toy_host strict_settings none (write_call (codes "w3")) 3 (some spent)).0 ≡ true
unfolding guard_code
third_is_stopped = refl

abbrev launch_at : ℕ → Text → LogEntry
launch_at t id = record {
  at = some t;
  lane = codes "codex";
  phase = launched;
  tool_use_id = some id;
  message_id = none;
  subagent_type = none;
}

d1_is_own : by_id (codes "d1") (launch_at 1 (codes "d1")) ≡ true
unfolding text_eq
d1_is_own = refl

d2_is_other : any (by_id (codes "d1")) (launch_at 2 (codes "d2") ∷ []) ≡ false
unfolding text_eq any
d2_is_other = refl

confirm_launched-append_example :
    confirm_launched to_codex (launch_at 1 (codes "d1") ∷ launch_at 2 (codes "d2") ∷ [])
    ≡ some (
      confirm_entry to_codex (launch_at 1 (codes "d1")),
      confirm_entry to_codex (launch_at 1 (codes "d1")) ∷ launch_at 2 (codes "d2") ∷ [],
    )
confirm_launched-append_example =
    confirm_launched-append to_codex (codes "d1") [] (launch_at 2 (codes "d2") ∷ [])
      (launch_at 1 (codes "d1")) refl d1_is_own d2_is_other

abbrev confirmed_entry : LogEntry
confirmed_entry = confirm_entry to_codex (launch_at 7 (codes "d1"))

first_asks : IsAsking toy_host (write_call (codes "w1"))
unfolding guard_code
first_asks = record { main = refl; session = refl; before = refl; tool = refl; inside = refl }

first_is_new :
    is_pending
      (write_of toy_host strict_settings (write_call (codes "w1"))).id
      (codes "Write")
      (normalize_state none 1).pending_writes
    ≡ false
unfolding guard_code
first_is_new = refl

execute_hook-IsCovered_example :
    IsCovered none
      (executed toy_host strict_settings none (write_call (codes "w1")) 1 none (some none))
execute_hook-IsCovered_example =
    execute_hook-IsCovered toy_host strict_settings none (write_call (codes "w1")) 1 none
      (some none) refl first_asks first_is_new
