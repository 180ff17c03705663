-- ===== src/Worker/Records.antt =====
-- plugins/fusion/scripts/lib/worker-state.mjs: the stored record of a worker, as far as the budget of a
-- round, the reopening of a worker and its verdicts read and write it. A missing property and `null` are `none`; a
-- missing Boolean is `false`, a missing count 0 and a missing list empty where the code takes it so.
use claude_code_fusion.Common.{ℕ, Bool, Option, List}
use claude_code_fusion.Common.Text.{Text}

-- The keys of `USAGE_KEYS`.
pub record TokenCounts : Type 0 where
  pub input_tokens : Option ℕ
  pub cache_creation_input_tokens : Option ℕ
  pub cache_read_input_tokens : Option ℕ
  pub output_tokens : Option ℕ
  pub total_tokens : Option ℕ
  pub uncached_tokens : Option ℕ

-- The baseline of a round: the counters when it began; an absent one counts as 0.
pub record Counters : Type 0 where
  pub at : Option Text
  pub turns : Option ℕ
  pub output_tokens : Option ℕ
  pub uncached_tokens : Option ℕ
  pub tool_calls : Option ℕ
  pub usage : TokenCounts

pub record RoundPrefix : Type 0 where
  pub turns : ℕ
  pub tool_calls : ℕ
  pub usage : TokenCounts

-- What is kept of a round that was accepted or rejected.
pub record Continuation : Type 0 where
  pub at : Text
  pub peer_job_id : Option Text
  pub peer_job_ids : List Text
  pub acceptance : Option Text
  pub acceptance_reason : Option Text
  pub acceptance_failure_kind : Option Text
  pub acceptance_source : Option Text
  pub acceptance_recorded_at : Option Text
  pub collected_at : Option Text
  pub collection_method : Option Text
  pub transport_status : Text
  pub failure_kind : Option Text
  pub peer_failure_kind : Option Text
  pub infra_failure : Option Bool

pub record Limits : Type 0 where
  pub wall_clock_ms : ℕ
  pub stall_ms : ℕ
  pub max_turns : ℕ
  pub max_output_tokens : ℕ
  pub max_uncached_tokens : ℕ

-- A verdict that waits for the worker to end.
pub record PendingVerdict : Type 0 where
  pub acceptance : Text
  pub source : Option Text
  pub reason : Option Text
  pub failure_kind : Option Text
  pub accept_failed_transport : Bool
  pub queued_at : Text

-- Why a verdict is not taken, by what the error's text says.
pub data VerdictError : Type 0 where
  unknown_acceptance bad_source unknown_failure_kind misplaced_failure_kind : VerdictError
  needs_ledger no_peer_identity failed_transport : VerdictError
  not_done : Text → VerdictError

pub record WorkerRecord : Type 0 where
  pub agent_type : Option Text
  pub completion_contract : Option Text
  pub peer_engine : Option Text
  pub peer_transport_status : Option Text
  pub limits : Option Limits
  pub budget_baseline : Option Counters
  pub started_at : Option Text
  pub created_at : Option Text
  pub finished_at : Option Text
  pub last_liveness_at : Option Text
  pub last_activity_at : Option Text
  pub last_continued_at : Option Text
  pub in_flight_since : Option Text
  pub awaiting_background_command : Bool
  pub runtime_async : Bool
  pub turns : Option ℕ
  pub tool_calls : Option ℕ
  pub usage : TokenCounts
  pub transport_status : Text
  pub failure_kind : Option Text
  pub peer_failure_kind : Option Text
  pub infra_failure : Option Bool
  pub limit_kind : Option Text
  -- `cancelReason`, by the limit that its text names.
  pub cancel_limit : Option ℕ
  pub cancel_requested_at : Option Text
  pub peer_job_ids : List Text
  pub peer_job_id : Option Text
  pub acceptance : Option Text
  pub acceptance_reason : Option Text
  pub acceptance_failure_kind : Option Text
  pub acceptance_source : Option Text
  pub acceptance_recorded_at : Option Text
  pub collected_at : Option Text
  pub collection_method : Option Text
  pub delivery_mode : Option Text
  pub pending_verdict : Option PendingVerdict
  pub pending_verdict_error : Option VerdictError
  pub awaiting_collection : Bool
  pub awaiting_collection_armed_at : Option Text
  pub awaiting_verdict : Bool
  pub awaiting_verdict_armed_at : Option Text
  pub continuations : List Continuation
  pub continuation_count : ℕ
  pub continuation_notification_floor : ℕ
  pub stop_block_count : ℕ
  pub cancel_attempt_count : ℕ
  pub retry_count : ℕ
  pub terminal_write_grace_used_at : Option Text
  pub wind_down_context_sent_at : Option Text
  pub token_wind_down_sent_at : Option Text
  pub uncached_wind_down_sent_at : Option Text
  pub output_file : Option Text
  pub transcript_path : Option Text
  pub transcript_offset : ℕ
  pub transcript_carry : Text
  pub transcript_skipping_line : Bool
  pub transcript_backlog_bytes : ℕ
  pub transcript_round_prefix : Option RoundPrefix
  pub usage_messages : List (Text × TokenCounts)
  pub turn_ids : List Text
  pub tool_use_ids : List Text
  pub usage_source : Option Text
  pub tool_calls_source : Option Text
  pub usage_availability : Option Text
