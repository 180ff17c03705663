-- ===== src/Breaker/Tests.antt =====
-- Runs of plugins/fusion/scripts/breaker-check.mjs, and its theorems at such inputs.
use Prim.Native.String.{String}
use claude_code_fusion.Common.{
  ℕ, ◌≡◌, ◌≢◌, ◌⊎◌, refl, true, false, Bool, Option, none, some, List, [], ◌∷◌, All, length,
}
use claude_code_fusion.Common.Text.{Text, codes, text_eq, has, is_blank, trim, trim_start}
use claude_code_fusion.Common.Regex.{regex_code}
use claude_code_fusion.Breaker.Kinds.{codex_failure_kind, first_kind}
use claude_code_fusion.Breaker.Records.{
  missing, string, JobRecord, Failure, trimmed, record_timestamp, finished_at_ms,
  is_within_lookback, engine_failure, supported_breaker_failure, permission_breaks_transport,
  normalized_recorded_failure_kind, record_failure_text,
}
use claude_code_fusion.Breaker.Latest.{
  pool, Outcome, out_of_scope, outcome_of, outcomes_of, insert_outcome, sort_outcomes, breaker_step,
  run_breaker, newer_failure, verdict, count_kind, latest_breaker_failure,
}
use claude_code_fusion.Breaker.Standing.{Hard, Repeated}
use claude_code_fusion.Breaker.Window.{verdict_sound}
use claude_code_fusion.Breaker.Verdict.{verdict_complete}
use claude_code_fusion.Breaker.Advice.{IsSound, latest_breaker_failure-IsSound}
use claude_code_fusion.Breaker.Report.{outranks, add_by_id, dedupe_from}
use claude_code_fusion.Breaker.Dedupe.{find_id, dedupe_from_best}

kind_demo : codex_failure_kind (codes "HTTP/1.1 402 from upstream") ≡ some (codes "quota")
unfolding codex_failure_kind first_kind is_blank regex_code
kind_demo = refl

kind_stall : codex_failure_kind (codes "worker stalled, no output") ≡ some (codes "stall")
unfolding codex_failure_kind first_kind is_blank regex_code
kind_stall = refl

-- A clock whose texts are tally marks.
abbrev tally : Text → Option ℕ
tally t = some (length t)

abbrev job : String → String → String → String → JobRecord
job id status kind finished = record {
  id = string (codes id);
  status = string (codes status);
  transport_status = missing;
  agent_type = missing;
  failure_kind = string (codes kind);
  finished_at = string (codes finished);
  completed_at = missing;
  updated_at = missing;
  error_message = missing;
  error_tail = missing;
  cancel_reason = missing;
  version = missing;
  billing_pool = missing;
}

abbrev jobs : List JobRecord
jobs =
    job "b" "error" "timeout" "|||||||"
    ∷ job "a" "done" "" "||"
    ∷ job "c" "error" "timeout" "|||||"
    ∷ []

abbrev timed_out : Failure
timed_out = record { failure_kind = codes "timeout"; timestamp = 7; version = none }

-- The functions that a run of the breaker computes with.
breaker_code : Unit {0}
unfolding regex_code is_blank trim trim_start has text_eq record_timestamp finished_at_ms
    is_within_lookback engine_failure supported_breaker_failure permission_breaks_transport
    normalized_recorded_failure_kind record_failure_text out_of_scope outcome_of outcomes_of
    insert_outcome sort_outcomes breaker_step run_breaker newer_failure verdict count_kind
    latest_breaker_failure outranks add_by_id dedupe_from
breaker_code = tt

latest_demo : latest_breaker_failure tally jobs (engine_failure tally 8 6) 8 6 (some pool) ≡ none
unfolding breaker_code
latest_demo = refl

latest_demo_all :
    latest_breaker_failure tally jobs (engine_failure tally 8 6) 8 6 none
    ≡ some (record { failure = timed_out; kind_count = 2; terminal_count = 3 })
unfolding breaker_code
latest_demo_all = refl

latest_breaker_failure-IsSound_example :
    IsSound 8 6 none (record { failure = timed_out; kind_count = 2; terminal_count = 3 })
latest_breaker_failure-IsSound_example =
    latest_breaker_failure-IsSound tally 8 6 none jobs
      (record { failure = timed_out; kind_count = 2; terminal_count = 3 }) latest_demo_all

abbrev seen : Bool → String → ℕ → Outcome
seen good kind t = record {
  failure_kind = some (codes kind);
  ignored = false;
  succeeded = good;
  timestamp = t;
  version = none;
}

abbrev history : List Outcome
history =
    seen false "auth" 1 ∷ seen true "" 2 ∷ seen false "timeout" 5 ∷ seen false "timeout" 7 ∷ []

verdict-history : verdict 6 history ≡ some timed_out
unfolding breaker_code
verdict-history = refl

verdict_sound_example : Hard history timed_out ⊎ Repeated 6 history timed_out
verdict_sound_example = verdict_sound 6 history timed_out verdict-history

abbrev locked_out : List Outcome
locked_out = seen true "" 2 ∷ seen false "auth" 5 ∷ seen false "" 7 ∷ []

locked_out-Hard :
    Hard locked_out (record { failure_kind = codes "auth"; timestamp = 5; version = none })
unfolding breaker_code
locked_out-Hard = (
  record {
    before = seen true "" 2 ∷ [];
    outcome = seen false "auth" 5;
    after = seen false "" 7 ∷ [];
    splits = refl;
    reports = (refl, refl, refl, refl, refl);
    no_success = (refl, tt);
  },
  refl,
)

verdict_complete_example : verdict 6 locked_out ≢ none
verdict_complete_example =
    verdict_complete 6 locked_out
      (record { failure_kind = codes "auth"; timestamp = 5; version = none }) locked_out-Hard

abbrev copies : List JobRecord
copies = job "x" "running" "" "|||" ∷ job "x" "done" "" "||" ∷ job "y" "done" "" "|" ∷ []

copies_kept :
    find_id (codes "x") (dedupe_from tally ([], []) copies).1 ≡ some (job "x" "done" "" "||")
unfolding breaker_code
copies_kept = refl

dedupe_from_best_example :
    All
      (λ r. trimmed r.id ≡ some (codes "x") → outranks tally r (job "x" "done" "" "||") ≡ false)
      copies
dedupe_from_best_example =
    dedupe_from_best tally (codes "x") (job "x" "done" "" "||") copies copies_kept
