-- ===== src/Worker/Tests.antt =====
-- Runs of plugins/fusion/scripts/lib/lifecycle/budget.mjs and of the reopening of a worker in
-- plugins/fusion/scripts/lib/worker-state.mjs, and the theorems at such inputs.
mod Verdicts
use claude_code_fusion.Common.{
  true, [], ◌∷◌, ℕ, ◌≡◌, ◌≢◌, ◌↔◌, refl, false, Option, none, some, arith, length,
}
use claude_code_fusion.Common.Text.{Text, codes, text_eq, has, trim_start, is_space}
use claude_code_fusion.Worker.Agents.{canonical_worker_agent_type}
use claude_code_fusion.Worker.Records.{TokenCounts, Continuation, WorkerRecord}
use claude_code_fusion.Worker.Budget.{
  limits_of, BudgetFailure, read_digits, parse_int, positive_integer, default_limits, scaled,
  worker_limits, worker_round_usage, worker_budget_failure, mark_budget_failure,
}
use claude_code_fusion.Worker.Agents.{worker_terminal_statuses}
use claude_code_fusion.Worker.Reopen.{
  is_fusion_worker_agent, is_settled, archived_ids, distinct, round_ids, continuation_of,
  baseline_of, open_round, forget_transcript, reopen_worker_continuation,
}
use claude_code_fusion.Worker.Ids.{NoRepeat}
use claude_code_fusion.Worker.Rounds.{
  reopen_worker_continuation_twice, worker_budget_failure-reopen_worker_continuation,
}
use claude_code_fusion.Worker.Archive.{reopen_worker_continuation-NoRepeat}
use claude_code_fusion.Worker.Limits.{
  IsPositive, worker_limits-IsPositive, IsWithin, worker_budget_failure_iff,
  worker_budget_failure_later, IsMarked, mark_budget_failure-IsMarked,
}

-- The functions that a run computes with.
budget_code : Unit {0}
unfolding text_eq has trim_start is_space canonical_worker_agent_type read_digits parse_int
    positive_integer default_limits scaled worker_limits worker_round_usage worker_budget_failure
    mark_budget_failure
budget_code = tt

limits_demo :
    worker_limits
      (some (codes "job-collector"))
      (record { wall_clock_ms = some (codes " 90ms"); stall_ms = none })
      (some (codes "small"))
    ≡ limits_of 90 330000 5 4000 15000
unfolding budget_code
limits_demo = refl

worker_limits-IsPositive_example :
    IsPositive
      (worker_limits none (record { wall_clock_ms = some (codes "0"); stall_ms = none }) none)
worker_limits-IsPositive_example =
    worker_limits-IsPositive none (record { wall_clock_ms = some (codes "0"); stall_ms = none })
      none

abbrev tally : Text → Option ℕ
tally t = some (length t)

abbrev no_counts : TokenCounts
no_counts = record {
  input_tokens = none;
  cache_creation_input_tokens = none;
  cache_read_input_tokens = none;
  output_tokens = none;
  total_tokens = none;
  uncached_tokens = none;
}

abbrev pub worker : WorkerRecord
worker = record {
  agent_type = some (codes "fusion:claude-worker");
  completion_contract = none;
  peer_engine = none;
  peer_transport_status = none;
  limits = some (limits_of 9 5 4 100 100);
  budget_baseline = some (record {
    at = some (codes "|||");
    turns = some 2;
    output_tokens = none;
    uncached_tokens = none;
    tool_calls = none;
    usage = no_counts;
  });
  started_at = some (codes "|");
  created_at = none;
  finished_at = none;
  last_liveness_at = some (codes "||||||");
  last_activity_at = none;
  last_continued_at = none;
  in_flight_since = none;
  awaiting_background_command = false;
  runtime_async = false;
  turns = some 5;
  tool_calls = none;
  usage = record no_counts { output_tokens = some 40 };
  transport_status = codes "running";
  failure_kind = none;
  peer_failure_kind = none;
  infra_failure = none;
  limit_kind = none;
  cancel_limit = none;
  cancel_requested_at = none;
  peer_job_ids = [];
  peer_job_id = none;
  acceptance = none;
  acceptance_reason = none;
  acceptance_failure_kind = none;
  acceptance_source = none;
  acceptance_recorded_at = none;
  collected_at = none;
  collection_method = none;
  delivery_mode = none;
  pending_verdict = none;
  pending_verdict_error = none;
  awaiting_collection = false;
  awaiting_collection_armed_at = none;
  awaiting_verdict = false;
  awaiting_verdict_armed_at = none;
  continuations = [];
  continuation_count = 0;
  continuation_notification_floor = 0;
  stop_block_count = 0;
  cancel_attempt_count = 0;
  retry_count = 0;
  terminal_write_grace_used_at = none;
  wind_down_context_sent_at = none;
  token_wind_down_sent_at = none;
  uncached_wind_down_sent_at = none;
  output_file = none;
  transcript_path = none;
  transcript_offset = 0;
  transcript_carry = [];
  transcript_skipping_line = false;
  transcript_backlog_bytes = 0;
  transcript_round_prefix = none;
  usage_messages = [];
  turn_ids = [];
  tool_use_ids = [];
  usage_source = none;
  tool_calls_source = none;
  usage_availability = none;
}

abbrev stalled : BudgetFailure
stalled = record { failure_kind = codes "stall"; limit_kind = codes "stall"; limit = 5 }

worker_at_10 : worker_budget_failure tally worker 10 ≡ none
unfolding budget_code
worker_at_10 = refl

worker_at_11 : worker_budget_failure tally worker 11 ≡ some stalled
unfolding budget_code
worker_at_11 = refl

worker_over : worker_budget_failure tally worker 11 ≢ none
worker_over h = cc (worker_at_11, h)

abbrev marked : WorkerRecord
marked = record worker {
  transport_status = codes "cancel_requested";
  failure_kind = some (codes "stall");
  limit_kind = some (codes "stall");
  cancel_limit = some 5;
  cancel_requested_at = some (codes "now");
}

mark_budget_failure-worker : mark_budget_failure stalled (codes "now") (some worker) ≡ some marked
unfolding budget_code
mark_budget_failure-worker = refl

abbrev first_round : Continuation
first_round = record {
  at = codes "|";
  peer_job_id = some (codes "a");
  peer_job_ids = codes "a" ∷ [];
  acceptance = some (codes "rejected");
  acceptance_reason = none;
  acceptance_failure_kind = none;
  acceptance_source = none;
  acceptance_recorded_at = none;
  collected_at = none;
  collection_method = none;
  transport_status = codes "done";
  failure_kind = none;
  peer_failure_kind = none;
  infra_failure = none;
}

-- A worker at the end of its second round, which used the job of the first one again.
abbrev ended : WorkerRecord
ended = record worker {
  transport_status = codes "done";
  acceptance = some (codes "accepted");
  peer_job_ids = codes "a" ∷ codes "b" ∷ codes "b" ∷ [];
  peer_job_id = some (codes "c");
  continuations = first_round ∷ [];
}

-- The functions that a reopening computes with.
reopen_code : Unit {0}
unfolding text_eq has canonical_worker_agent_type is_fusion_worker_agent is_settled archived_ids
    distinct round_ids continuation_of baseline_of open_round forget_transcript
    reopen_worker_continuation
reopen_code = tt

reopened_ids :
    archived_ids (reopen_worker_continuation (codes "||||") 7 ended).continuations
    ≡ codes "a" ∷ codes "b" ∷ codes "c" ∷ []
unfolding reopen_code
reopened_ids = refl

ended_status : has worker_terminal_statuses ended.transport_status ≡ true
unfolding reopen_code
ended_status = refl

one_id : NoRepeat (archived_ids ended.continuations)
unfolding reopen_code
one_id = (refl, tt)

reopen_worker_continuation-NoRepeat_example :
    NoRepeat (archived_ids (reopen_worker_continuation (codes "||||") 7 ended).continuations)
reopen_worker_continuation-NoRepeat_example =
    reopen_worker_continuation-NoRepeat (codes "||||") 7 ended one_id

some_limits : IsPositive (limits_of 9 5 4 100 100)
some_limits = record {
  wall_clock_ms = omega arith;
  stall_ms = omega arith;
  max_turns = omega arith;
  max_output_tokens = omega arith;
  max_uncached_tokens = omega arith;
}

worker_budget_failure-reopen_worker_continuation_example :
    worker_budget_failure tally (reopen_worker_continuation (codes "||||") 7 ended) 12 ≡ none
worker_budget_failure-reopen_worker_continuation_example =
    worker_budget_failure-reopen_worker_continuation tally (codes "||||") 7 ended 12
      (limits_of 9 5 4 100 100) ended_status refl some_limits refl (omega arith)
