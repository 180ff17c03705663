-- ===== src/Worker/Verdicts.antt =====
-- plugins/fusion/scripts/lib/worker-state.mjs: the collection of a worker that has ended, and the verdicts
-- on it, which are recorded at once or wait for its end.
use claude_code_fusion.Common.{
  ℕ, Bool, true, false, not, ◌&&◌, ◌||◌, Option, none, some, List, [], ◌∷◌, leb, ◌==◌,
  if◌then◌else◌, or_else, is_some, every, length,
}
use claude_code_fusion.Common.Text.{Text, codes, text_eq, has, is_empty}
use claude_code_fusion.Breaker.Report.{engine_ids}
use claude_code_fusion.Worker.Agents.{worker_terminal_statuses, canonical_worker_agent_type}
use claude_code_fusion.Worker.Budget.{is_type}
use claude_code_fusion.Worker.Reasons.{safe_reason}
use claude_code_fusion.Worker.Records.{
  PendingVerdict, VerdictError, unknown_acceptance, bad_source, unknown_failure_kind,
  misplaced_failure_kind, needs_ledger, no_peer_identity, failed_transport, not_done, WorkerRecord,
}

abbrev acceptance_states : List Text
acceptance_states = codes "accepted" ∷ codes "rejected" ∷ codes "unverified" ∷ []

abbrev semantic_failure_kinds : List Text
semantic_failure_kinds =
    codes "intent_override"
    ∷ codes "scope_rewrite"
    ∷ codes "wrong_approach"
    ∷ codes "style_mismatch"
    ∷ codes "oversized"
    ∷ []

abbrev pub collection_methods : List Text
collection_methods =
    codes "subagent_stop"
    ∷ codes "task_notification"
    ∷ codes "task_output"
    ∷ codes "output_file_read"
    ∷ codes "agent_result"
    ∷ codes "task_stop"
    ∷ codes "task_reaped"
    ∷ []

unfoldable pub canonical_collection_method : Option Text → Option Text
canonical_collection_method none = none
canonical_collection_method (some t) = if has collection_methods t then some t else none

abbrev pub either_text : Option Text → Option Text → Option Text
either_text (some t) u = some t
either_text none u = u

abbrev pub is_given : Option Text → Bool
is_given none = false
is_given (some t) = not (is_empty t)

-- A verdict is still to come.
unfoldable pub awaits_verdict : WorkerRecord → Bool
awaits_verdict r =
    is_type r.acceptance (codes "unverified")
    && not (is_some r.acceptance_recorded_at)
    && (r.awaiting_verdict || not (is_given r.collected_at))

-- The returned object, for a method that is known.
unfoldable pub collected_by : Text → Text → WorkerRecord → WorkerRecord
collected_by known at r =
    let awaiting = awaits_verdict r in
    record r {
      collection_method = some known;
      collected_at = some (or_else r.collected_at at);
      awaiting_collection = false;
      awaiting_collection_armed_at = none;
      awaiting_verdict = awaiting;
      awaiting_verdict_armed_at =
          if awaiting then some (or_else r.awaiting_verdict_armed_at at) else none;
    }

abbrev pub collected_or_none : Option Text → Text → WorkerRecord → Option WorkerRecord
collected_or_none none at r = none
collected_or_none (some known) at r = some (collected_by known at r)

-- `none` is the error of a method that is not known.
unfoldable pub mark_worker_collected : Option Text → Text → WorkerRecord → Option WorkerRecord
mark_worker_collected method at r =
    collected_or_none
      (either_text (canonical_collection_method r.collection_method)
        (canonical_collection_method method))
      at r

-- A verdict as it is given.
pub record Verdict : Type 0 where
  pub acceptance : Text
  pub source : Option Text
  pub reason : Option Text
  pub failure_kind : Option Text
  pub accept_failed_transport : Bool
  pub engine_ledger_written : Bool

abbrev is_source_unit : ℕ → Bool
is_source_unit c =
    (leb b'a' c && leb c b'z') || (leb b'0' c && leb c b'9') || c == b'.' || c == b'_' || c == b'-'

-- `/^[a-z][a-z0-9._-]{0,31}$/`.
unfoldable pub is_source : Option Text → Bool
is_source none = false
is_source (some []) = false
is_source (some (c ∷ cs)) =
    leb b'a' c && leb c b'z' && every is_source_unit cs && leb (length cs) 31

abbrev is_known_kind : Option Text → Bool
is_known_kind none = true
is_known_kind (some k) = has semantic_failure_kinds k

-- The error of `validatedAcceptanceFields`, if it throws one.
unfoldable pub field_error : Text → Option Text → Option Text → Option VerdictError
field_error acceptance source kind =
    if not (has acceptance_states acceptance)
    then some unknown_acceptance
    else if not (is_source source)
    then some bad_source
    else if not (is_known_kind kind)
    then some unknown_failure_kind
    else if is_some kind && not (text_eq acceptance (codes "rejected"))
    then some misplaced_failure_kind
    else none

abbrev is_hex : ℕ → Bool
is_hex c = (leb b'a' c && leb c b'f') || (leb b'0' c && leb c b'9')

-- `/^[a-f0-9]{32}$/`.
abbrev is_job_id : Option Text → Bool
is_job_id none = false
is_job_id (some t) = every is_hex t && (length t == 32)

abbrev is_engine : Option Text → Bool
is_engine none = false
is_engine (some t) = has engine_ids t

-- The engines whose `acceptanceLedger` is set.
abbrev keeps_ledger : Option Text → Bool
keeps_ledger engine = is_type engine (codes "codex")

unfoldable pub is_collector : WorkerRecord → Bool
is_collector r =
    is_type (canonical_worker_agent_type r.agent_type) (codes "fusion:job-collector")
    || is_type r.completion_contract (codes "collector")

unfoldable pub worker_acceptance_gate : Text → Bool → Bool → WorkerRecord → Option VerdictError
worker_acceptance_gate acceptance accept_failed ledger_written r =
    if is_collector r && not ledger_written && keeps_ledger r.peer_engine
    then some needs_ledger
    else if is_collector r
        && (not (is_engine r.peer_engine)
            || not (is_job_id r.peer_job_id)
            || not (is_given r.peer_transport_status))
    then some no_peer_identity
    else if text_eq acceptance (codes "accepted")
        && text_eq r.transport_status (codes "failed")
        && not accept_failed
    then some failed_transport
    else none

-- `at` is what `acceptanceRecordedAt` gives.
unfoldable pub settle_worker_acceptance :
    Text → Option Text → Option Text → Option Text → Text → WorkerRecord → WorkerRecord
settle_worker_acceptance acceptance source reason kind at r = record r {
  pending_verdict = none;
  pending_verdict_error = none;
  acceptance = some acceptance;
  acceptance_source = source;
  acceptance_reason = reason;
  acceptance_failure_kind = kind;
  acceptance_recorded_at = some at;
  awaiting_verdict = false;
  awaiting_verdict_armed_at = none;
}

abbrev pub first_error : Option VerdictError → Option VerdictError → Option VerdictError
first_error (some e) other = some e
first_error none other = other

abbrev pub settle_queued : PendingVerdict → Text → WorkerRecord → Option VerdictError → WorkerRecord
settle_queued v at r (some e) = record r { pending_verdict_error = some e }
settle_queued v at r none =
    settle_worker_acceptance v.acceptance v.source (safe_reason v.reason) v.failure_kind at r

abbrev pub apply_verdict : PendingVerdict → Text → WorkerRecord → WorkerRecord
apply_verdict v at r =
    if text_eq v.acceptance (codes "accepted") && not (text_eq r.transport_status (codes "done"))
    then record r {
      pending_verdict = none;
      awaiting_verdict = true;
      awaiting_verdict_armed_at = some at;
      pending_verdict_error = some (not_done r.transport_status);
    }
    else settle_queued v at r (
        first_error (field_error v.acceptance v.source v.failure_kind)
          (worker_acceptance_gate v.acceptance v.accept_failed_transport false r))

abbrev pub apply_pending : Option PendingVerdict → Text → WorkerRecord → WorkerRecord
apply_pending none at r = r
apply_pending (some v) at r =
    if has worker_terminal_statuses r.transport_status then apply_verdict v at r else r

unfoldable pub apply_queued_verdict : Text → WorkerRecord → WorkerRecord
apply_queued_verdict at r = apply_pending r.pending_verdict at r

unfoldable pub is_pending_settlement : WorkerRecord → Bool
is_pending_settlement r =
    not (is_type r.completion_contract (codes "collector"))
    && has worker_terminal_statuses r.transport_status
    && is_given r.collected_at
    && r.awaiting_verdict

unfoldable pub is_settled_worker : WorkerRecord → Bool
is_settled_worker r = is_some r.acceptance_recorded_at && not r.awaiting_verdict

-- The record to write, and whether the verdict waits; or the error.
pub data Recorded : Type 0 where
  refused : VerdictError → Recorded
  recorded : (queued : Bool) → WorkerRecord → Recorded

abbrev pub queue_verdict : Verdict → Text → WorkerRecord → WorkerRecord
queue_verdict v at r = record r {
  pending_verdict_error = none;
  pending_verdict = some (record {
    acceptance = v.acceptance;
    source = v.source;
    reason = safe_reason v.reason;
    failure_kind = v.failure_kind;
    accept_failed_transport = v.accept_failed_transport;
    queued_at = at;
  });
}

abbrev pub record_unless : Option VerdictError → Bool → WorkerRecord → Recorded
record_unless (some e) queued r = refused e
record_unless none queued r = recorded queued r

unfoldable pub record_worker_acceptance : Verdict → Text → WorkerRecord → Recorded
record_worker_acceptance v at r =
    if has worker_terminal_statuses r.transport_status
    then record_unless
        (first_error (field_error v.acceptance v.source v.failure_kind)
          (worker_acceptance_gate v.acceptance v.accept_failed_transport v.engine_ledger_written r))
        false
        (settle_worker_acceptance v.acceptance v.source (safe_reason v.reason) v.failure_kind at r)
    else record_unless (field_error v.acceptance v.source v.failure_kind) true
        (queue_verdict v at r)
