-- ===== src/Breaker/Records.antt =====
-- plugins/fusion/scripts/breaker-check.mjs: job records, their times, and the failure that a record
-- stands for.
use claude_code_fusion.Common.{
  ℕ, ◌+◌, Bool, false, not, ◌&&◌, ◌||◌, Option, none, some, List, [], ◌∷◌, ◌++◌, leb, if◌then◌else◌,
}
use claude_code_fusion.Common.Text.{Text, codes, text_eq, has, is_blank, trim, to_lower}
use claude_code_fusion.Common.Regex.{test_i}
use claude_code_fusion.Breaker.Kinds.{
  breaker_failure_kinds, repeated_failure_kinds, failure_statuses, transport_permission_pattern,
  policy_protocol_pattern,
}

-- A property of a parsed JSON object: absent or null, a string, or any other value.
pub data Field : Type 0 where
  missing : Field
  string : Text → Field
  other : Field

-- `left ?? right`.
abbrev or_field : Field → Field → Field
or_field missing g = g
or_field (string t) g = string t
or_field other g = other

-- The properties that the checks read. `version` is the one that `versionField` of the engine names.
pub record JobRecord : Type 0 where
  pub id : Field
  pub status : Field
  pub transport_status : Field
  pub agent_type : Field
  pub failure_kind : Field
  pub finished_at : Field
  pub completed_at : Field
  pub updated_at : Field
  pub error_message : Field
  pub error_tail : Field
  pub cancel_reason : Field
  pub version : Field
  pub billing_pool : Field

pub record Failure : Type 0 where
  pub failure_kind : Text
  pub timestamp : ℕ
  pub version : Option Text

-- `set.has(value)` for a set of strings.
abbrev pub has_field : List Text → Field → Bool
has_field ws missing = false
has_field ws (string t) = has ws t
has_field ws other = false

-- A string that is more than white space, trimmed.
abbrev pub trimmed : Field → Option Text
trimmed missing = none
trimmed (string t) = if is_blank t then none else some (trim t)
trimmed other = none

abbrev strings : List Field → List Text
strings [] = []
strings (missing ∷ fs) = strings fs
strings (string t ∷ fs) = t ∷ strings fs
strings (other ∷ fs) = strings fs

-- `parts.join("\n")`.
abbrev join_lines : List Text → Text
join_lines [] = []
join_lines (t ∷ []) = t
join_lines (t ∷ u ∷ ts) = t ++ (b'\n' ∷ join_lines (u ∷ ts))

unfoldable pub record_failure_text : JobRecord → Text
record_failure_text r = join_lines (strings (r.error_message ∷ r.error_tail ∷ r.cancel_reason ∷ []))

unfoldable pub permission_breaks_transport : JobRecord → Text → Bool
permission_breaks_transport r kind =
    text_eq kind (codes "permission") && test_i transport_permission_pattern (record_failure_text r)

unfoldable pub supported_breaker_failure : JobRecord → Text → Bool
supported_breaker_failure r kind =
    if text_eq kind (codes "permission")
    then permission_breaks_transport r kind
    else has breaker_failure_kinds kind

abbrev lowered : Field → Text
lowered missing = []
lowered (string t) = to_lower (trim t)
lowered other = []

unfoldable pub normalized_recorded_failure_kind : JobRecord → Text
normalized_recorded_failure_kind r =
    let kind = lowered r.failure_kind in
    if text_eq kind (codes "policy") && test_i policy_protocol_pattern (record_failure_text r)
    then codes "protocol"
    else kind

-- Ages are compared by addition: `timestamp <= now && now - timestamp <= lookbackMs`.
unfoldable pub is_within_lookback : ℕ → ℕ → ℕ → Bool
is_within_lookback timestamp now lookback = leb timestamp now && leb now (timestamp + lookback)

abbrev pub failure_at : ℕ → ℕ → Bool → Text → Option Text → Option ℕ → Option Failure
failure_at now lookback supported kind version none = none
failure_at now lookback supported kind version (some t) =
    if not supported || not (is_within_lookback t now lookback)
    then none
    else some (record { failure_kind = kind; timestamp = t; version = version })

abbrev pub broken_worker_statuses : List Text
broken_worker_statuses = codes "failed" ∷ codes "incomplete" ∷ codes "owner_ended" ∷ []

-- `Date.parse` of the host, in milliseconds since 1970; `none` where it gives NaN, or a time before.
module _ (parse_date : Text → Option ℕ) where
  unfoldable pub finished_at_ms : Field → Option ℕ
  finished_at_ms missing = none
  finished_at_ms (string t) = if is_blank t then none else parse_date t
  finished_at_ms other = none

  unfoldable pub record_timestamp : JobRecord → Option ℕ
  record_timestamp r =
      finished_at_ms (or_field r.finished_at (or_field r.completed_at r.updated_at))

  unfoldable pub engine_failure : ℕ → ℕ → JobRecord → Option Failure
  engine_failure now lookback r =
      let kind = normalized_recorded_failure_kind r in
      if not (has_field failure_statuses r.status)
      then none
      else failure_at now lookback (supported_breaker_failure r kind) kind (trimmed r.version)
          (record_timestamp r)

  unfoldable pub worker_failure : ℕ → ℕ → JobRecord → Option Failure
  worker_failure now lookback r =
      let kind = lowered r.failure_kind in
      if not (has_field broken_worker_statuses r.transport_status)
      then none
      else failure_at now lookback (has repeated_failure_kinds kind) kind none
          (finished_at_ms (or_field r.finished_at r.updated_at))
