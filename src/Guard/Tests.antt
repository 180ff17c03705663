-- ===== src/Guard/Tests.antt =====
-- Runs of plugins/fusion/scripts/lib/guard, and the theorems at such inputs.
mod Writes
use claude_code_fusion.Common.{
  ℕ, ◌≡◌, refl, true, false, Option, none, some, List, [], ◌∷◌, any, every, arith,
}
use claude_code_fusion.Common.Text.{
  Text, codes, text_eq, has, trim, trim_start, is_blank, is_space, starts_with, index_of, to_lower,
  slice, split_on, words_onto,
}
use claude_code_fusion.Common.Json.{string, object, field, end, get}
use claude_code_fusion.Guard.Settings.{
  Settings, normalize_posture, resolve_posture, resolve_budget, resolve_nonnegative_integer,
  resolve_settings,
}
use claude_code_fusion.Guard.State.{
  GuardState, LogEntry, launched, default_state, last_entries, prune_expired_launched_dispatches,
  normalize_state, total_dispatches, reset_write_window,
}
use claude_code_fusion.Guard.Bytes.{
  Host, byte_length, is_workspace_write_path, write_path_signature, bytes_from, input_bytes,
  edit_replacement_bytes, extract_write_path, is_inside_cwd, inline_write_bytes, field_bytes,
  item_bytes,
}
use claude_code_fusion.Guard.Write.{
  is_pending, Write, duplicate, denied, is_tail_allowed, is_zero_dispatch_allowed, relief_of,
  is_due, count_write, advise_write, allowed_of, decide_write,
}
use claude_code_fusion.Guard.Settle.{
  failed, take_pending, confirm_write, shrink_window, refund_write, settle_write,
}
use claude_code_fusion.Guard.Dispatch.{
  Dispatch, find_worker_record, has_in_flight, launch_dispatch, confirm_last, confirm_entry,
  confirm_launched, count_dispatch, latest_from, confirm_dispatch, by_id,
  latest_confirmed_dispatch_at,
}
use claude_code_fusion.Guard.Verify.{verify_window}
use claude_code_fusion.Guard.Calls.{
  write_of, HookCall, deny_write, set_signature, claim_advisory, handle_write,
}
use claude_code_fusion.Guard.Hooks.{handle_dispatch, handle_task_control, handle_bash, run_hook}
use claude_code_fusion.Guard.Limits.{FileInBudget, OnFile}
use claude_code_fusion.Guard.Kept.{run_hooks}
use claude_code_fusion.Guard.Budget.{run_hooks-FileInBudget}
use claude_code_fusion.Guard.Booked.{IsBooked, run_hooks-IsBooked}
use claude_code_fusion.Guard.Returned.{
  lets_through, IsBack, decide_write-confirm_dispatch, settle_write-IsBack, decide_write-twice,
}
use claude_code_fusion.Guard.Refusals.{stops, denies_write}
use claude_code_fusion.Guard.Launches.{IsBy, is_confirmed_at, confirm_launched-append}
use claude_code_fusion.Common.Regex.{
  is_word, step_unit, bind, shorter, iterate, matches, search_from, test, test_lines, test_i,
  test_lines_i, regex_code,
}
use claude_code_fusion.Worker.Agents.{type_in, canonical_worker_agent_type}
use claude_code_fusion.Worker.Reopen.{
  is_fusion_worker_agent, is_settled, archived_ids, distinct, round_ids, continuation_of,
  baseline_of, open_round, forget_transcript, reopen_worker_continuation,
}
use claude_code_fusion.Worker.Budget.{
  read_digits, parse_int, positive_integer, default_limits, scaled, worker_limits,
  worker_round_usage, worker_budget_failure, mark_budget_failure,
}
use claude_code_fusion.Guard.Names.{
  is_session_id, is_session_id, is_safe_identifier, sanitize_identifier, extract_tool_use_id,
  normalize_lane, engine_of, lane_for_subagent_type,
}
use claude_code_fusion.Guard.Transcript.{
  transcript_entry_content, any_value, normalize_message_id, message_id_from, extract_bash_command,
}
use claude_code_fusion.Guard.Closed.{IsAsking, IsCovered, executed, execute_hook-IsCovered}

-- The functions that a run computes with.
pub guard_code : Unit {0}
unfolding text_eq has starts_with index_of slice is_space trim_start trim to_lower is_blank split_on
    words_onto get is_word step_unit bind shorter iterate matches search_from test test_lines test_i
    test_lines_i regex_code any every type_in canonical_worker_agent_type is_fusion_worker_agent
    is_settled archived_ids distinct round_ids continuation_of baseline_of open_round
    forget_transcript reopen_worker_continuation read_digits parse_int positive_integer
    default_limits scaled worker_limits worker_round_usage worker_budget_failure mark_budget_failure
    normalize_posture resolve_posture resolve_budget resolve_nonnegative_integer resolve_settings
    prune_expired_launched_dispatches last_entries normalize_state total_dispatches
    reset_write_window is_session_id is_safe_identifier sanitize_identifier extract_tool_use_id
    normalize_lane engine_of lane_for_subagent_type bytes_from byte_length input_bytes
    edit_replacement_bytes extract_write_path is_inside_cwd is_workspace_write_path
    write_path_signature inline_write_bytes field_bytes item_bytes transcript_entry_content
    any_value normalize_message_id message_id_from extract_bash_command is_tail_allowed
    is_zero_dispatch_allowed relief_of is_due count_write advise_write allowed_of decide_write
    take_pending confirm_write shrink_window refund_write settle_write find_worker_record
    has_in_flight launch_dispatch confirm_last confirm_launched count_dispatch latest_from
    confirm_dispatch verify_window set_signature claim_advisory handle_write handle_dispatch
    handle_task_control handle_bash run_hook run_hooks
guard_code = tt

abbrev pub toy_host : Host
toy_host = record {
  is_absolute = λ t. starts_with (codes "/") t;
  relative = λ a b. codes "a.txt";
  digest = λ root path. path;
  cwd = codes "/work";
  stable_digest = λ ns. [];
}

abbrev pub strict_settings : Settings
strict_settings = record {
  strict = true;
  budget = 2;
  tail_max_bytes = 1024;
  tail_allowance = 1;
  zero_dispatch_max_bytes = 0;
  zero_dispatch_writes = 0;
}

abbrev lenient_settings : Settings
lenient_settings = record strict_settings { strict = false }

abbrev pub write_call : Text → HookCall
write_call id = record {
  session_id = codes "s";
  agent_id = false;
  hook_event_name = some (codes "PreToolUse");
  tool_name = codes "Write";
  tool_use_id = some id;
  tool_input = some (
      object (
        field (codes "file_path") (string (codes "/work/a.txt"))
          (field (codes "content") (string (codes "text")) end)));
  tool_response = none;
  cwd = some (codes "/work");
  transcript = [];
  records = [];
}

abbrev three_calls : List (HookCall × ℕ)
three_calls =
    (write_call (codes "w1"), 1) ∷ (write_call (codes "w2"), 2) ∷ (write_call (codes "w3"), 3) ∷ []

abbrev window_of : Option GuardState → ℕ
window_of none = 0
window_of (some s) = s.writes_since_dispatch

-- The third write of the session is over the budget.
write_count_at_three : window_of (run_hooks toy_host strict_settings none three_calls none) ≡ 2
unfolding guard_code
write_count_at_three = refl

write_over_budget :
    (run_hook toy_host strict_settings none (write_call (codes "w3")) 3 (
      run_hooks toy_host strict_settings none
        ((write_call (codes "w1"), 1) ∷ (write_call (codes "w2"), 2) ∷ [])
        none)).0
    ≡ deny_write 2 0
unfolding guard_code
write_over_budget = refl

run_hooks-FileInBudget_example :
    FileInBudget strict_settings (run_hooks toy_host strict_settings none three_calls none)
run_hooks-FileInBudget_example =
    run_hooks-FileInBudget toy_host strict_settings none three_calls refl

run_hooks-IsBooked_example :
    OnFile IsBooked (run_hooks toy_host lenient_settings none three_calls none)
run_hooks-IsBooked_example = run_hooks-IsBooked toy_host lenient_settings none three_calls
