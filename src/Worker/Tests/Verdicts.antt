-- ===== src/Worker/Tests/Verdicts.antt =====
-- Verdicts of plugins/fusion/scripts/lib/worker-state.mjs at inputs, and the theorems there.
use claude_code_fusion.Common.{◌≡◌, refl, true, false, some, any, every}
use claude_code_fusion.Common.Text.{
  codes, text_eq, has, starts_with, is_space, is_blank, trim_start, trim, to_lower,
}
use claude_code_fusion.Worker.Agents.{canonical_worker_agent_type}
use claude_code_fusion.Worker.Records.{WorkerRecord}
use claude_code_fusion.Worker.Reasons.{replace_from, run_length, cleaned, safe_reason}
use claude_code_fusion.Worker.Verdicts.{
  canonical_collection_method, awaits_verdict, collected_by, mark_worker_collected, Verdict,
  is_source, field_error, is_collector, worker_acceptance_gate, settle_worker_acceptance,
  apply_queued_verdict, is_pending_settlement, is_settled_worker, recorded, queue_verdict,
  record_worker_acceptance,
}
use claude_code_fusion.Worker.Settled.{
  is_terminal, ended, apply_queued_verdict-record_worker_acceptance,
}
use claude_code_fusion.Worker.Printable.{IsLine, safe_reason-IsLine}
use claude_code_fusion.Worker.Tests.{worker}

-- The functions that a run computes with.
verdict_code : Unit {0}
unfolding any every text_eq has starts_with is_space is_blank trim_start trim to_lower
    canonical_worker_agent_type replace_from run_length cleaned safe_reason
    canonical_collection_method awaits_verdict collected_by mark_worker_collected is_source
    field_error is_collector worker_acceptance_gate settle_worker_acceptance apply_queued_verdict
    is_pending_settlement is_settled_worker record_worker_acceptance
verdict_code = tt

reason_is_cleaned :
    safe_reason (some (codes " no\n sk-abcdefghijklmnop1 ")) ≡ some (codes "no  [redacted]")
unfolding verdict_code
reason_is_cleaned = refl

safe_reason-IsLine_example : IsLine (safe_reason (some (codes "too\nlong")))
safe_reason-IsLine_example = safe_reason-IsLine (some (codes "too\nlong"))

abbrev rejection : Verdict
rejection = record {
  acceptance = codes "rejected";
  source = some (codes "main-loop");
  reason = some (codes "off");
  failure_kind = some (codes "wrong_approach");
  accept_failed_transport = false;
  engine_ledger_written = false;
}

abbrev finished : WorkerRecord
finished = ended (codes "done") worker

abbrev waiting : WorkerRecord
waiting = queue_verdict rejection (codes "1") worker

abbrev rejected : WorkerRecord
rejected = record finished {
  acceptance = some (codes "rejected");
  acceptance_source = some (codes "main-loop");
  acceptance_reason = some (codes "off");
  acceptance_failure_kind = some (codes "wrong_approach");
  acceptance_recorded_at = some (codes "2");
}

worker_runs : is_terminal worker ≡ false
unfolding verdict_code
worker_runs = refl

rejection_waits : record_worker_acceptance rejection (codes "1") worker ≡ recorded true waiting
unfolding verdict_code
rejection_waits = refl

rejection_settles :
    record_worker_acceptance rejection (codes "2") finished ≡ recorded false rejected
unfolding verdict_code
rejection_settles = refl

rejection_fits : text_eq (codes "rejected") (codes "accepted") ≡ false
unfolding text_eq
rejection_fits = refl

apply_queued_verdict-record_worker_acceptance_example :
    apply_queued_verdict (codes "2") (ended (codes "done") waiting)
    ≡ record rejected { acceptance_reason = safe_reason (safe_reason (some (codes "off"))) }
unfolding text_eq
apply_queued_verdict-record_worker_acceptance_example =
    apply_queued_verdict-record_worker_acceptance rejection (codes "1") (codes "2") (codes "done")
      worker waiting rejected refl worker_runs refl rejection_waits rejection_settles

abbrev collected : WorkerRecord
collected = record finished {
  collection_method = some (codes "task_output");
  collected_at = some (codes "4");
}

first_collection :
    mark_worker_collected (some (codes "task_output")) (codes "4") finished ≡ some collected
unfolding verdict_code
first_collection = refl
