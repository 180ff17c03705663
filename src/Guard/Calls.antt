-- ===== src/Guard/Calls.antt =====
-- plugins/fusion/scripts/lib/guard/handler.mjs and write-events.mjs: a call of the hook, and `handleWrite`
-- from the state file to the state file and the reply.
use claude_code_fusion.Common.{
  ℕ, Bool, false, not, ◌&&◌, Option, none, some, List, [], ◌∷◌, ◌==◌, if◌then◌else◌, any,
}
use claude_code_fusion.Common.Text.{Text, codes, text_eq, has}
use claude_code_fusion.Common.Json.{Value, Fields}
use claude_code_fusion.Streak.Turns.{write_tools, other_event}
use claude_code_fusion.Guard.Settings.{Settings}
use claude_code_fusion.Guard.State.{GuardState, normalize_state}
use claude_code_fusion.Guard.Names.{extract_tool_use_id}
use claude_code_fusion.Guard.Bytes.{
  Host, extract_write_path, input_bytes, edit_replacement_bytes, is_workspace_write_path,
  write_path_signature,
}
use claude_code_fusion.Guard.Write.{
  Write, Relief, tail_allowed, zero_dispatch_softened, Allowed, duplicate, denied, allowed, Decided,
  decide_write,
}
use claude_code_fusion.Guard.Settle.{Outcome, succeeded, failed, settle_write}
use claude_code_fusion.Guard.Dispatch.{TaskRecord}

-- A call of the hook. `tool_response` and `tool_input` are parsed JSON; `transcript` is the tail of the
-- transcript's lines, the last one first; `records` are those of the session's workers.
pub record HookCall : Type 0 where
  pub session_id : Text
  pub agent_id : Bool
  pub hook_event_name : Option Text
  pub tool_name : Text
  pub tool_use_id : Option Text
  pub tool_input : Option Value
  pub tool_response : Option Fields
  pub cwd : Option Text
  pub transcript : List Value
  pub records : List TaskRecord

pub data Reply : Type 0 where
  silent : Reply
  exempt : Reply
  deny_write : (write_count dispatch_count : ℕ) → Reply
  relieve : Relief → (suppressed : Bool) → Reply
  warn : (suppressed : Bool) → Reply
  counted : (recovered generic : Bool) → Reply
  deny_no_op : Reply
  deny_unavailable : Reply
  redirect : TaskRecord → Reply

abbrev pub Hooked : Type 0
Hooked = Reply × Option GuardState

-- What the file holds behind a callback.
abbrev pub file_behind : Option GuardState → Option GuardState → Option GuardState
file_behind file none = file
file_behind file (some s) = some s

abbrev pub is_event : Text → Option Text → Bool
is_event name none = false
is_event name (some t) = text_eq t name

-- `claimAdvisory`: what is known under the kind is replaced, and an equal signature suppresses the advice.
abbrev is_claimed : Text → Text → Text × Text → Bool
is_claimed kind signature (k, v) = text_eq k kind && text_eq v signature

unfoldable pub set_signature : Text → Text → List (Text × Text) → List (Text × Text)
set_signature kind signature [] = (kind, signature) ∷ []
set_signature kind signature ((k, v) ∷ rest) =
    if text_eq k kind then (k, signature) ∷ rest else (k, v) ∷ set_signature kind signature rest

unfoldable pub claim_advisory : Text → Text → GuardState → Bool × GuardState
claim_advisory kind signature s = (
  any (is_claimed kind signature) s.advisory_signatures,
  record s { advisory_signatures = set_signature kind signature s.advisory_signatures },
)

abbrev relief_name : Relief → Text
relief_name tail_allowed = codes "tail-allowed"
relief_name zero_dispatch_softened = codes "zero-dispatch-softened"

abbrev relief_numbers : Relief → Allowed → List ℕ
relief_numbers tail_allowed a = a.dispatch_epoch ∷ a.remaining_tail_slots ∷ []
relief_numbers zero_dispatch_softened a =
    a.remaining_zero_dispatch_writes ∷ a.remaining_zero_dispatch_bytes ∷ []

abbrev replied : (Bool → Reply) → Bool × GuardState → Hooked
replied reply (suppressed, s) = (reply suppressed, some s)

module _ (host : Host) (cfg : Settings) where
  -- No other call of the hook comes between the two locked callbacks here.
  abbrev pub advise_candidate : Allowed → ℕ → GuardState → Option ℕ → Hooked
  advise_candidate a now s none = (silent, some s)
  advise_candidate a now s (some multiple) =
      let t = normalize_state (some s) now in
      if (t.dispatch_epoch == a.dispatch_epoch) && any (◌==◌ multiple) t.advised_multiples
      then replied warn (
          claim_advisory (codes "write-budget")
            (host.stable_digest (multiple ∷ cfg.budget ∷ a.dispatch_epoch ∷ [])) t)
      else (silent, some s)

  abbrev pub advise_allowed : Allowed → ℕ → GuardState → Option Relief → Hooked
  advise_allowed a now s none = advise_candidate a now s a.candidate
  advise_allowed a now s (some relief) = replied (relieve relief) (
      claim_advisory (relief_name relief) (host.stable_digest (relief_numbers relief a))
        (normalize_state (some s) now))

  abbrev pub reply_to : Option GuardState → ℕ → Decided → Hooked
  reply_to file now (written, duplicate) = (silent, file)
  reply_to file now (written, denied w d) = (deny_write w d, file)
  reply_to file now (none, allowed a) = (silent, file)
  reply_to file now (some s, allowed a) = advise_allowed a now s a.relief

  abbrev pub write_of : HookCall → Write
  write_of c = record {
    tool = c.tool_name;
    id = extract_tool_use_id c.tool_use_id;
    bytes = input_bytes c.tool_input;
    replacement =
        if text_eq c.tool_name (codes "Edit") then edit_replacement_bytes c.tool_input else none;
    signature = write_path_signature host (extract_write_path c.tool_input) c.cwd;
  }

  abbrev pub settle_by : Outcome → HookCall → ℕ → Option GuardState → Option Text → Hooked
  settle_by outcome c now file none = (silent, file)
  settle_by outcome c now file (some id) = (
    silent,
    file_behind file (settle_write cfg.budget outcome id c.tool_name (normalize_state file now)),
  )

  unfoldable pub handle_write : HookCall → ℕ → Option GuardState → Hooked
  handle_write c now file =
      if not (has write_tools c.tool_name)
      then (silent, file)
      else if is_event (codes "PostToolUseFailure") c.hook_event_name
      then settle_by failed c now file (extract_tool_use_id c.tool_use_id)
      else if is_event (codes "PostToolUse") c.hook_event_name
      then settle_by succeeded c now file (extract_tool_use_id c.tool_use_id)
      else if other_event c.hook_event_name
      then (silent, file)
      else if not (is_workspace_write_path host (extract_write_path c.tool_input) c.cwd)
      then (exempt, file)
      else reply_to file now (decide_write cfg (write_of c) (normalize_state file now))
