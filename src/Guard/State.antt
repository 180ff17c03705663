-- ===== src/Guard/State.antt =====
-- plugins/fusion/scripts/lib/guard/state.mjs: the state of the guard, as the guard itself writes it. A
-- time is in milliseconds since 1970.
use claude_code_fusion.Common.{
  ℕ, ◌+◌, ◌-◌, ◌*◌, Bool, true, false, Option, none, some, List, [], ◌∷◌, leb, length, drop, keep,
}
use claude_code_fusion.Common.Text.{Text}

-- A write that was let through and whose outcome is not known.
pub record PendingWrite : Type 0 where
  pub id : Text
  pub tool : Text
  pub epoch : ℕ
  pub bytes : ℕ
  pub signature : Text
  pub tail : Bool

pub data Phase : Type 0 where
  launched confirmed : Phase

-- An entry of the dispatch log, less its description.
pub record LogEntry : Type 0 where
  pub at : Option ℕ
  pub lane : Text
  pub phase : Phase
  pub tool_use_id : Option Text
  pub message_id : Option Text
  pub subagent_type : Option Text

pub record GuardState : Type 0 where
  pub write_count : ℕ
  pub writes_since_dispatch : ℕ
  pub inline_write_bytes : ℕ
  pub tail_writes_since_dispatch : ℕ
  pub written_path_signatures : List Text
  pub confirmed_path_signatures : List Text
  pub dispatch_epoch : ℕ
  pub last_dispatch_at : Option ℕ
  pub read_streak_turns : ℕ
  pub last_read_at : Option ℕ
  pub pending_writes : List PendingWrite
  pub dispatches : List (Text × ℕ)
  pub dispatch_log : List LogEntry
  pub advised_multiples : List ℕ
  pub advisory_signatures : List (Text × Text)
  pub created_at : ℕ
  pub updated_at : ℕ

abbrev pub default_state : ℕ → GuardState
default_state now = record {
  write_count = 0;
  writes_since_dispatch = 0;
  inline_write_bytes = 0;
  tail_writes_since_dispatch = 0;
  written_path_signatures = [];
  confirmed_path_signatures = [];
  dispatch_epoch = 0;
  last_dispatch_at = none;
  read_streak_turns = 0;
  last_read_at = none;
  pending_writes = [];
  dispatches = [];
  dispatch_log = [];
  advised_multiples = [];
  advisory_signatures = [];
  created_at = now;
  updated_at = now;
}

abbrev pub dispatch_log_limit : ℕ
dispatch_log_limit = 200

-- `LAUNCHED_DISPATCH_TTL_MS`.
abbrev launched_ttl : ℕ
launched_ttl = 15 * 60 * 1000

abbrev is_fresh : ℕ → Option ℕ → Bool
is_fresh now none = false
is_fresh now (some t) = leb now (t + launched_ttl)

abbrev pub stays : ℕ → Phase → Option ℕ → Bool
stays now confirmed at = true
stays now launched at = is_fresh now at

unfoldable pub prune_expired_launched_dispatches : List LogEntry → ℕ → List LogEntry
prune_expired_launched_dispatches log now = keep (λ e. stays now e.phase e.at) log

-- `array.slice(-DISPATCH_LOG_LIMIT)`, which is also what the two calls of `splice` leave.
unfoldable pub last_entries : List LogEntry → List LogEntry
last_entries log = drop (length log - dispatch_log_limit) log

-- `normalizeState` of what `readState` gives, for a state that the guard wrote: all of its checks hold of
-- such a state, and launches that were not confirmed in time are dropped from the log.
unfoldable pub normalize_state : Option GuardState → ℕ → GuardState
normalize_state none now = default_state now
normalize_state (some s) now = record s {
  dispatch_log = prune_expired_launched_dispatches (last_entries s.dispatch_log) now;
  updated_at = now;
}

-- `totalDispatches`.
unfoldable pub total_dispatches : List (Text × ℕ) → ℕ
total_dispatches [] = 0
total_dispatches ((lane, n) ∷ rest) = n + total_dispatches rest

unfoldable pub reset_write_window : GuardState → GuardState
reset_write_window s = record s {
  writes_since_dispatch = 0;
  tail_writes_since_dispatch = 0;
  written_path_signatures = [];
  confirmed_path_signatures = [];
  advised_multiples = [];
}
