-- ===== src/Guard/Leaves.antt =====
-- plugins/fusion/scripts/lib/guard/handler.mjs, `runHook`: the ways in which a call of the hook can go.
use claude_code_fusion.Common.{ℕ, if-both, Bool, not, ◌&&◌, ◌||◌, Option, none, some}
use claude_code_fusion.Guard.Write.{decide_write}
use claude_code_fusion.Guard.Settle.{Outcome, succeeded, failed}
use claude_code_fusion.Guard.Dispatch.{TaskRecord, has_in_flight, is_reaped, launch_dispatch}
use claude_code_fusion.Common.Text.{Text, codes, text_eq, has, is_empty}
use claude_code_fusion.Command.Evidence.{Evidence}
use claude_code_fusion.Streak.Turns.{
  read_tools, write_tools, delegation_tools, bash_tool, other_event,
}
use claude_code_fusion.Guard.Settings.{Settings}
use claude_code_fusion.Guard.State.{GuardState, normalize_state}
use claude_code_fusion.Guard.Names.{extract_tool_use_id, is_session_id}
use claude_code_fusion.Guard.Bytes.{Host, extract_write_path, is_workspace_write_path}
use claude_code_fusion.Guard.Transcript.{extract_bash_command}
use claude_code_fusion.Guard.Calls.{
  HookCall, Hooked, silent, exempt, deny_no_op, redirect, is_event, reply_to, write_of, settle_by,
  handle_write,
}
use claude_code_fusion.Guard.Hooks.{
  confirm_reply, is_addressed, recipient_of, is_message, dispatch_of, is_other_event,
  handle_dispatch, redirect_if_reaped, handle_task_control, is_no_op, verified_by, verify_command,
  handle_bash, task_control_tools, run_hook,
}

-- What is to be shown of each of the ways.
pub record Leaves (host : Host) (cfg : Settings) (pattern : Option (Text → Bool)) (c : HookCall)
    (now : ℕ) (file : Option GuardState) (Q : Hooked → Type 0) : Type 0 where
  pub at_rest : Q (silent, file)
  pub at_exempt : Q (exempt, file)
  pub at_no_op : Q (deny_no_op, file)
  pub at_redirect : (r : TaskRecord) → Q (redirect r, file)
  pub at_settle :
      (outcome : Outcome)
      → Q (settle_by host cfg outcome c now file (extract_tool_use_id c.tool_use_id))
  pub at_decide : Q (
      reply_to host cfg file now
        (decide_write cfg (write_of host cfg c) (normalize_state file now)))
  pub at_launch : Q (silent, some (launch_dispatch (dispatch_of c) now (normalize_state file now)))
  pub at_confirm : Q (confirm_reply c now (normalize_state file now))
  pub at_verify : (e : Option Evidence) → Q (verified_by pattern (not cfg.strict) now file e)

module _ (host : Host) (cfg : Settings) (pattern : Option (Text → Bool)) (c : HookCall) (now : ℕ)
    (file : Option GuardState) (Q : Hooked → Type 0)
    (l : Leaves host cfg pattern c now file Q) where
  handle_write-leaves : Q (handle_write host cfg c now file)
  unfolding handle_write
  handle_write-leaves = if-both Q (not (has write_tools c.tool_name)) l.at_rest (
      if-both Q (is_event (codes "PostToolUseFailure") c.hook_event_name) (l.at_settle failed) (
        if-both Q (is_event (codes "PostToolUse") c.hook_event_name) (l.at_settle succeeded) (
          if-both Q (other_event c.hook_event_name) l.at_rest (
            if-both Q (not (is_workspace_write_path host (extract_write_path c.tool_input) c.cwd))
              l.at_exempt l.at_decide))))

  handle_dispatch-leaves : Q (handle_dispatch c now file)
  unfolding handle_dispatch
  handle_dispatch-leaves =
      if-both Q
        (is_other_event c.hook_event_name
          || (is_message c && not (is_addressed c (recipient_of c))))
        l.at_rest
        (if-both Q (is_event (codes "PreToolUse") c.hook_event_name) l.at_launch l.at_confirm)

  redirect_if_reaped-leaves : (r : Option TaskRecord) → Q (redirect_if_reaped file r)
  redirect_if_reaped-leaves none = l.at_rest
  redirect_if_reaped-leaves (some r) = if-both Q (is_reaped r) (l.at_redirect r) l.at_rest

  handle_task_control-leaves : Q (handle_task_control c file)
  unfolding handle_task_control
  handle_task_control-leaves =
      if-both Q (other_event c.hook_event_name) l.at_rest (redirect_if_reaped-leaves _)

  verify_command-leaves :
      (command : Option Text) → Q (verify_command pattern (not cfg.strict) c now file command)
  verify_command-leaves none = l.at_rest
  verify_command-leaves (some command) = l.at_verify _

  handle_bash-leaves : Q (handle_bash pattern (not cfg.strict) c now file)
  unfolding handle_bash
  handle_bash-leaves =
      if-both Q (is_event (codes "PostToolUse") c.hook_event_name) (verify_command-leaves _) (
        if-both Q (other_event c.hook_event_name) l.at_rest (
          if-both Q (is_no_op (extract_bash_command c.tool_input) && has_in_flight c.records)
            l.at_no_op l.at_rest))

  -- What holds of all the ways holds of the call.
  pub run_hook-leaves : Q (run_hook host cfg pattern c now file)
  unfolding run_hook
  run_hook-leaves = if-both Q c.agent_id l.at_rest (
      if-both Q (not (is_session_id c.session_id) || is_empty c.tool_name) l.at_rest (
        if-both Q (has delegation_tools c.tool_name) handle_dispatch-leaves (
          if-both Q (has task_control_tools c.tool_name) handle_task_control-leaves (
            if-both Q (text_eq c.tool_name bash_tool) handle_bash-leaves
              (if-both Q (has read_tools c.tool_name) l.at_rest handle_write-leaves)))))
