-- ===== src/Guard/Hooks.antt =====
-- plugins/fusion/scripts/lib/guard/handler.mjs, `runHook`, less the pruning of old state files and the read
-- streak, which come before the handlers and may write the state file too: the early returns and the
-- handlers of one call of the hook, from the state file to the state file and the reply.
use claude_code_fusion.Common.{
  ℕ, Bool, true, false, not, ◌&&◌, ◌||◌, Option, none, some, List, [], ◌∷◌, if◌then◌else◌, map,
}
use claude_code_fusion.Common.Text.{Text, codes, text_eq, has, is_empty}
use claude_code_fusion.Common.Json.{get}
use claude_code_fusion.Command.Evidence.{Evidence, verification_evidence}
use claude_code_fusion.Worker.Reopen.{is_fusion_worker_agent}
use claude_code_fusion.Streak.Turns.{
  write_tools, read_tools, delegation_tools, bash_tool, other_event,
}
use claude_code_fusion.Guard.Settings.{Settings}
use claude_code_fusion.Guard.State.{LogEntry, GuardState, normalize_state}
use claude_code_fusion.Guard.Names.{
  extract_tool_use_id, is_session_id, sanitize_identifier, lane_for_subagent_type,
}
use claude_code_fusion.Guard.Bytes.{
  Host, extract_write_path, is_workspace_write_path, path_text, input_fields,
}
use claude_code_fusion.Guard.Transcript.{message_id_for_tool_use, extract_bash_command}
use claude_code_fusion.Guard.Dispatch.{
  TaskRecord, Dispatch, find_worker_record, has_in_flight, is_same, peer_rescue_agent_names,
  launch_dispatch, confirm_dispatch, confirm_launched, is_reaped,
}
use claude_code_fusion.Guard.Verify.{verify_window}
use claude_code_fusion.Guard.Calls.{
  HookCall, silent, counted, deny_no_op, deny_unavailable, redirect, Hooked, file_behind, is_event,
  handle_write,
}

abbrev is_worker_agent : Option Text → Bool
is_worker_agent none = false
is_worker_agent (some t) = has peer_rescue_agent_names t || is_fusion_worker_agent (some t)

-- A message is a dispatch if it goes to a worker of the session.
abbrev pub is_addressed : HookCall → Option TaskRecord → Bool
is_addressed c none = false
is_addressed c (some r) = is_same r.session_id c.session_id && is_worker_agent r.agent_type

abbrev found_by : List TaskRecord → Option Text → Option TaskRecord
found_by records none = none
found_by records (some id) = find_worker_record records id

abbrev agent_of : Option TaskRecord → Option Text
agent_of none = none
agent_of (some r) = r.agent_type

abbrev pub recipient_of : HookCall → Option TaskRecord
recipient_of c = found_by c.records (path_text (get (codes "to") (input_fields c.tool_input)))

abbrev pub is_message : HookCall → Bool
is_message c = text_eq c.tool_name (codes "SendMessage")

abbrev subagent_type_of : HookCall → Option Text
subagent_type_of c =
    if is_message c
    then agent_of (recipient_of c)
    else path_text (get (codes "subagent_type") (input_fields c.tool_input))

abbrev is_general : Option Text → Bool
is_general none = true
is_general (some t) = has (map codes ("fork" ∷ "general-purpose" ∷ "claude" ∷ [])) t

abbrev is_generic_agent : HookCall → Bool
is_generic_agent c =
    text_eq c.tool_name (codes "Agent") && not c.agent_id && is_general (subagent_type_of c)

abbrev pub dispatch_of : HookCall → Dispatch
dispatch_of c = record {
  lane = lane_for_subagent_type (subagent_type_of c);
  tool_use_id = extract_tool_use_id c.tool_use_id;
  message_id = message_id_for_tool_use c.transcript c.tool_use_id;
  subagent_type = sanitize_identifier (subagent_type_of c) 120;
}

-- The event is named, and is neither of the two around a tool.
abbrev pub is_other_event : Option Text → Bool
is_other_event name = other_event name && not (is_event (codes "PostToolUse") name)

abbrev is_missing : Option (LogEntry × List LogEntry) → Bool
is_missing none = true
is_missing (some found) = false

-- The reply says whether the launch was missing from the log, and whether the agent is a generic one.
abbrev pub confirm_reply : HookCall → ℕ → GuardState → Hooked
confirm_reply c now s = (
  counted (is_missing (confirm_launched (dispatch_of c) s.dispatch_log)) (is_generic_agent c),
  some (confirm_dispatch (dispatch_of c) now s),
)

unfoldable pub handle_dispatch : HookCall → ℕ → Option GuardState → Hooked
handle_dispatch c now file =
    if is_other_event c.hook_event_name || (is_message c && not (is_addressed c (recipient_of c)))
    then (silent, file)
    else if is_event (codes "PreToolUse") c.hook_event_name
    then (silent, some (launch_dispatch (dispatch_of c) now (normalize_state file now)))
    else confirm_reply c now (normalize_state file now)

abbrev pub redirect_if_reaped : Option GuardState → Option TaskRecord → Hooked
redirect_if_reaped file none = (silent, file)
redirect_if_reaped file (some r) = if is_reaped r then (redirect r, file) else (silent, file)

unfoldable pub handle_task_control : HookCall → Option GuardState → Hooked
handle_task_control c file =
    if other_event c.hook_event_name
    then (silent, file)
    else redirect_if_reaped file
        (found_by c.records (path_text (get (codes "task_id") (input_fields c.tool_input))))

abbrev no_op_bash_commands : List Text
no_op_bash_commands = [] ∷ codes "true" ∷ codes ":" ∷ []

abbrev pub is_no_op : Option Text → Bool
is_no_op none = false
is_no_op (some command) = has no_op_bash_commands command

-- `pattern` is the pattern of the environment for verifications.
module _ (pattern : Option (Text → Bool)) (judgment : Bool) where
  abbrev pub verified_by : ℕ → Option GuardState → Option Evidence → Hooked
  verified_by now file none = (silent, file)
  verified_by now file (some e) =
      (silent, file_behind file (verify_window judgment (normalize_state file now)))

  abbrev pub verify_command : HookCall → ℕ → Option GuardState → Option Text → Hooked
  verify_command c now file none = (silent, file)
  verify_command c now file (some command) =
      verified_by now file (verification_evidence pattern command c.tool_response)

  unfoldable pub handle_bash : HookCall → ℕ → Option GuardState → Hooked
  handle_bash c now file =
      if is_event (codes "PostToolUse") c.hook_event_name
      then verify_command c now file (extract_bash_command c.tool_input)
      else if other_event c.hook_event_name
      then (silent, file)
      else if is_no_op (extract_bash_command c.tool_input) && has_in_flight c.records
      then (deny_no_op, file)
      else (silent, file)

abbrev pub task_control_tools : List Text
task_control_tools = codes "TaskOutput" ∷ codes "TaskStop" ∷ []

unfoldable pub run_hook :
    Host → Settings → Option (Text → Bool) → HookCall → ℕ → Option GuardState → Hooked
run_hook host cfg pattern c now file =
    if c.agent_id
    then (silent, file)
    else if not (is_session_id c.session_id) || is_empty c.tool_name
    then (silent, file)
    else if has delegation_tools c.tool_name
    then handle_dispatch c now file
    else if has task_control_tools c.tool_name
    then handle_task_control c file
    else if text_eq c.tool_name bash_tool
    then handle_bash pattern (not cfg.strict) c now file
    else if has read_tools c.tool_name
    then (silent, file)
    else handle_write host cfg c now file

-- `executeHook`: `none` is a run that threw, and `written` what it left in the file.
unfoldable pub execute_hook :
    Host → Settings → HookCall → Option GuardState → Option Hooked → Hooked
execute_hook host cfg c written (some r) = r
execute_hook host cfg c written none =
    if cfg.strict
      && not c.agent_id
      && has write_tools c.tool_name
      && is_workspace_write_path host (extract_write_path c.tool_input) c.cwd
    then (deny_unavailable, written)
    else (silent, written)
