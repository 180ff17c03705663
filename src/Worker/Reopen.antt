-- ===== src/Worker/Reopen.antt =====
-- plugins/fusion/scripts/lib/worker-state.mjs, `reopenWorkerContinuation`: a worker that has ended is
-- opened for another round.
use claude_code_fusion.Common.{
  ℕ, suc, Bool, true, false, not, ◌&&◌, ◌||◌, Option, none, some, List, [], ◌∷◌, ◌++◌, leb,
  if◌then◌else◌, or_else, keep, is_some,
}
use claude_code_fusion.Common.Text.{Text, codes, has}
use claude_code_fusion.Worker.Agents.{worker_terminal_statuses, canonical_worker_agent_type}
use claude_code_fusion.Worker.Records.{TokenCounts, Counters, Continuation, WorkerRecord}
use claude_code_fusion.Worker.Budget.{max_safe_integer, is_type}

abbrev empty_worker_usage : TokenCounts
empty_worker_usage = record {
  input_tokens = some 0;
  cache_creation_input_tokens = some 0;
  cache_read_input_tokens = some 0;
  output_tokens = some 0;
  total_tokens = some 0;
  uncached_tokens = some 0;
}

-- A count that is missing or not safe is 0.
abbrev integer : Option ℕ → ℕ
integer none = 0
integer (some n) = if leb n max_safe_integer then n else 0

unfoldable pub is_fusion_worker_agent : Option Text → Bool
is_fusion_worker_agent t = is_some (canonical_worker_agent_type t)

unfoldable pub is_settled : WorkerRecord → Bool
is_settled r = is_type r.acceptance (codes "accepted") || is_type r.acceptance (codes "rejected")

-- `rounds.flatMap((round) => round.peerJobIds)`.
unfoldable pub archived_ids : List Continuation → List Text
archived_ids [] = []
archived_ids (round ∷ rounds) = round.peer_job_ids ++ archived_ids rounds

-- `[...new Set(ids)]`, less those that were seen already.
unfoldable pub distinct : List Text → List Text → List Text
distinct seen [] = []
distinct seen (id ∷ ids) =
    let again = distinct seen ids in
    let first = id ∷ distinct (id ∷ seen) ids in if has seen id then again else first

abbrev pub id_list : Option Text → List Text
id_list none = []
id_list (some id) = id ∷ []

-- The jobs of the round that has ended: those of no earlier round.
unfoldable pub round_ids : WorkerRecord → List Text
round_ids r = distinct [] (
    keep (λ id. not (has (archived_ids r.continuations) id))
      (r.peer_job_ids ++ id_list r.peer_job_id))

unfoldable pub continuation_of : Text → WorkerRecord → Continuation
continuation_of at r = record {
  at = at;
  peer_job_id = r.peer_job_id;
  peer_job_ids = round_ids r;
  acceptance = r.acceptance;
  acceptance_reason = r.acceptance_reason;
  acceptance_failure_kind = r.acceptance_failure_kind;
  acceptance_source = r.acceptance_source;
  acceptance_recorded_at = r.acceptance_recorded_at;
  collected_at = r.collected_at;
  collection_method = r.collection_method;
  transport_status = r.transport_status;
  failure_kind = r.failure_kind;
  peer_failure_kind = r.peer_failure_kind;
  infra_failure = r.infra_failure;
}

unfoldable pub baseline_of : Text → WorkerRecord → Counters
baseline_of at r = record {
  at = some at;
  turns = some (or_else r.turns 0);
  output_tokens = some (or_else r.usage.output_tokens 0);
  uncached_tokens = some (or_else r.usage.uncached_tokens 0);
  tool_calls = some (or_else r.tool_calls 0);
  usage = record {
    input_tokens = some (integer r.usage.input_tokens);
    cache_creation_input_tokens = some (integer r.usage.cache_creation_input_tokens);
    cache_read_input_tokens = some (integer r.usage.cache_read_input_tokens);
    output_tokens = some (integer r.usage.output_tokens);
    total_tokens = some (integer r.usage.total_tokens);
    uncached_tokens = some (integer r.usage.uncached_tokens);
  };
}

-- The fields of the returned object in front of the last spread.
unfoldable pub open_round : Text → ℕ → Bool → Bool → WorkerRecord → WorkerRecord
open_round at floor worker settled r = record r {
  continuations = if settled then r.continuations ++ continuation_of at r ∷ [] else r.continuations;
  continuation_count = suc r.continuation_count;
  last_continued_at = some at;
  continuation_notification_floor = floor;
  transport_status = codes "running";
  runtime_async = true;
  finished_at = none;
  collected_at = none;
  collection_method = none;
  awaiting_background_command = false;
  output_file = none;
  transcript_path = if worker then r.transcript_path else none;
  transcript_offset = if worker then r.transcript_offset else 0;
  transcript_carry = if worker then r.transcript_carry else [];
  transcript_skipping_line = worker && r.transcript_skipping_line;
  transcript_backlog_bytes = 0;
  peer_job_id = if settled then none else r.peer_job_id;
  acceptance = some (codes "unverified");
  acceptance_reason = none;
  acceptance_failure_kind = none;
  acceptance_source = none;
  acceptance_recorded_at = none;
  pending_verdict = none;
  pending_verdict_error = none;
  awaiting_collection = false;
  awaiting_collection_armed_at = none;
  awaiting_verdict = false;
  awaiting_verdict_armed_at = none;
  failure_kind = none;
  peer_failure_kind = none;
  infra_failure = none;
  delivery_mode = none;
  stop_block_count = 0;
  cancel_attempt_count = 0;
  retry_count = 0;
  terminal_write_grace_used_at = none;
  cancel_limit = none;
  cancel_requested_at = none;
  wind_down_context_sent_at = none;
  token_wind_down_sent_at = none;
  uncached_wind_down_sent_at = none;
  last_activity_at = some at;
  in_flight_since = some at;
  budget_baseline = some (baseline_of at r);
}

-- The last spread, for an agent of the plugin.
unfoldable pub forget_transcript : Text → Bool → WorkerRecord → WorkerRecord
forget_transcript at worker r =
    if worker
    then record r {
      transcript_round_prefix =
          some (record { turns = 0; tool_calls = 0; usage = empty_worker_usage });
      usage_messages = [];
      turn_ids = [];
      tool_use_ids = [];
      usage_source = none;
      tool_calls_source = none;
      usage_availability = some (codes "unreported");
      last_liveness_at = some at;
    }
    else r

unfoldable pub reopen_worker_continuation : Text → ℕ → WorkerRecord → WorkerRecord
reopen_worker_continuation at floor r =
    let worker = is_fusion_worker_agent r.agent_type in
    if has worker_terminal_statuses r.transport_status
    then forget_transcript at worker (open_round at floor worker (is_settled r) r)
    else r
