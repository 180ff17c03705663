-- ===== src/Guard/Dispatch.antt =====
-- plugins/fusion/scripts/lib/guard/dispatch-events.mjs: dispatches to agents are logged when they are
-- launched and counted when they are confirmed.
use claude_code_fusion.Common.{
  ℕ, suc, Bool, true, false, not, ◌&&◌, ◌||◌, Option, none, some, List, [], ◌∷◌, ◌++◌, ltb,
  if◌then◌else◌, keep, head?, map, any,
}
use claude_code_fusion.Common.Text.{Text, codes, text_eq, has}
use claude_code_fusion.Worker.Agents.{worker_terminal_statuses}
use claude_code_fusion.Guard.State.{
  Phase, launched, confirmed, LogEntry, GuardState, last_entries, reset_write_window,
}

-- The fields of a worker's record that the guard reads.
pub record TaskRecord : Type 0 where
  pub task_id : Text
  pub session_id : Option Text
  pub agent_type : Option Text
  pub transport_status : Option Text
  pub background_task_id : Option Text
  pub agent_id : Option Text

abbrev reaped_worker_terminal_statuses : List Text
reaped_worker_terminal_statuses =
    codes "done" ∷ codes "incomplete" ∷ codes "failed" ∷ codes "cancelled" ∷ []

abbrev pub is_same : Option Text → Text → Bool
is_same none t = false
is_same (some s) t = text_eq s t

abbrev in_statuses : List Text → Option Text → Bool
in_statuses statuses none = false
in_statuses statuses (some t) = has statuses t

abbrev pub is_reaped : TaskRecord → Bool
is_reaped r = in_statuses reaped_worker_terminal_statuses r.transport_status

abbrev pub first_of : Option TaskRecord → Option TaskRecord → Option TaskRecord
first_of (some r) other = some r
first_of none other = other

-- `records` are those of the session.
unfoldable pub find_worker_record : List TaskRecord → Text → Option TaskRecord
find_worker_record records id =
    let found = keep (λ r. is_same r.background_task_id id || is_same r.agent_id id) records in
    first_of (head? (keep (λ r. not (is_reaped r)) found)) (head? found)

abbrev is_open_status : Option Text → Bool
is_open_status none = false
is_open_status (some t) = not (has worker_terminal_statuses t)

-- `inFlightWorkerTaskSignature` is not null.
unfoldable pub has_in_flight : List TaskRecord → Bool
has_in_flight records = any (λ r. is_open_status r.transport_status) records

abbrev peer_rescue_agents : List Text
peer_rescue_agents =
    map codes (
      "codex:codex-rescue" ∷ "grok:grok-rescue" ∷ "cursor:cursor-rescue" ∷ "devin:devin-rescue"
      ∷ [])

-- `PEER_RESCUE_AGENT_NAMES`: each with its name behind the colon.
abbrev pub peer_rescue_agent_names : List Text
peer_rescue_agent_names =
    peer_rescue_agents
    ++ map codes ("codex-rescue" ∷ "grok-rescue" ∷ "cursor-rescue" ∷ "devin-rescue" ∷ [])

-- A dispatch, as the handler has read it: `subagent_type` and `message_id` are safe ones.
pub record Dispatch : Type 0 where
  pub lane : Text
  pub tool_use_id : Option Text
  pub message_id : Option Text
  pub subagent_type : Option Text

abbrev entry_of : Dispatch → ℕ → Phase → LogEntry
entry_of d now phase = record {
  at = some now;
  lane = d.lane;
  phase = phase;
  tool_use_id = d.tool_use_id;
  message_id = d.message_id;
  subagent_type = d.subagent_type;
}

-- The callback before a dispatch.
unfoldable pub launch_dispatch : Dispatch → ℕ → GuardState → GuardState
launch_dispatch d now s = record s {
  dispatch_log =
      last_entries (s.dispatch_log ++ entry_of (record d { message_id = none }) now launched ∷ []);
}

abbrev is_launched : Phase → Bool
is_launched launched = true
is_launched confirmed = false

abbrev same_id : Option Text → Text → Bool
same_id none id = false
same_id (some j) id = text_eq j id

abbrev pub by_id : Text → LogEntry → Bool
by_id id e = is_launched e.phase && same_id e.tool_use_id id

abbrev pub by_lane : Text → LogEntry → Bool
by_lane lane e = is_launched e.phase && text_eq e.lane lane

abbrev pub or_text : Option Text → Option Text → Option Text
or_text (some t) u = some t
or_text none u = u

abbrev pub confirm_entry : Dispatch → LogEntry → LogEntry
confirm_entry d e = record e { phase = confirmed; message_id = or_text d.message_id e.message_id }

-- `findLast` of the log, and the log with what was found confirmed in place.
unfoldable pub confirm_last :
    Dispatch → (LogEntry → Bool) → List LogEntry → Option (LogEntry × List LogEntry)
confirm_last d p [] = none
confirm_last d p (e ∷ log) = elim (confirm_last d p log) [
  | some (f, rest) ↦ some (f, e ∷ rest)
  | none ↦ if p e then some (confirm_entry d e, confirm_entry d e ∷ log) else none
]

abbrev pub confirm_by_id :
    Dispatch → Option Text → List LogEntry → Option (LogEntry × List LogEntry)
confirm_by_id d none log = none
confirm_by_id d (some id) log = confirm_last d (by_id id) log

abbrev pub or_found :
    Option (LogEntry × List LogEntry)
    → Option (LogEntry × List LogEntry)
    → Option (LogEntry × List LogEntry)
or_found (some f) other = some f
or_found none other = other

-- `findLaunchedDispatch`, and what is done to the entry.
unfoldable pub confirm_launched : Dispatch → List LogEntry → Option (LogEntry × List LogEntry)
confirm_launched d log =
    or_found (confirm_by_id d d.tool_use_id log) (confirm_last d (by_lane d.lane) log)

abbrev pub log_of : Dispatch → ℕ → List LogEntry → Option (LogEntry × List LogEntry) → List LogEntry
log_of d now log none = last_entries (log ++ entry_of d now confirmed ∷ [])
log_of d now log (some (f, log')) = log'

abbrev pub lane_of : Dispatch → Option (LogEntry × List LogEntry) → Text
lane_of d none = d.lane
lane_of d (some (f, log')) = f.lane

unfoldable pub count_dispatch : Text → List (Text × ℕ) → List (Text × ℕ)
count_dispatch lane [] = (lane, 1) ∷ []
count_dispatch lane ((l, n) ∷ rest) =
    if text_eq l lane then (l, suc n) ∷ rest else (l, n) ∷ count_dispatch lane rest

abbrev pub later_time : Option ℕ → Option ℕ → Option ℕ
later_time none latest = latest
later_time (some t) none = some t
later_time (some t) (some u) = if ltb u t then some t else some u

abbrev pub confirmed_at : Phase → Option ℕ → Option ℕ
confirmed_at confirmed at = at
confirmed_at launched at = none

unfoldable pub latest_from : Option ℕ → List LogEntry → Option ℕ
latest_from latest [] = latest
latest_from latest (e ∷ log) = latest_from (later_time (confirmed_at e.phase e.at) latest) log

abbrev pub latest_confirmed_dispatch_at : List LogEntry → Option ℕ
latest_confirmed_dispatch_at log = latest_from none log

abbrev pub confirm_found :
    Dispatch → ℕ → GuardState → Option (LogEntry × List LogEntry) → GuardState
confirm_found d now s found = reset_write_window (record s {
  dispatch_log = log_of d now s.dispatch_log found;
  dispatches = count_dispatch (lane_of d found) s.dispatches;
  dispatch_epoch = suc s.dispatch_epoch;
  last_dispatch_at = latest_confirmed_dispatch_at (log_of d now s.dispatch_log found);
})

-- The callback behind a dispatch.
unfoldable pub confirm_dispatch : Dispatch → ℕ → GuardState → GuardState
confirm_dispatch d now s = confirm_found d now s (confirm_launched d s.dispatch_log)
