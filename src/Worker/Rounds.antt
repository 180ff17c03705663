-- ===== src/Worker/Rounds.antt =====
-- plugins/fusion/scripts/lib/worker-state.mjs, `reopenWorkerContinuation`: what the next round of a
-- worker starts with.
use mathlib.Core.Path.{subst}
use claude_code_fusion.Common.{
  ℕ, ◌-◌, ◌≡◌, refl, sym, ◌∙◌, Bool, true, false, Option, none, some, arith, inl, inr, Bool-cases,
  or_else,
}
use claude_code_fusion.Common.Text.{Text, codes, text_eq, has, is_empty}
use claude_code_fusion.Worker.Agents.{worker_terminal_statuses}
use claude_code_fusion.Worker.Records.{Limits, WorkerRecord}
use claude_code_fusion.Worker.Budget.{worker_round_usage, worker_budget_failure}
use claude_code_fusion.Worker.Limits.{IsPositive, Within, IsWithin, worker_budget_failure_iff}
use claude_code_fusion.Worker.Reopen.{
  is_fusion_worker_agent, is_settled, baseline_of, open_round, forget_transcript,
  reopen_worker_continuation,
}

running_open : has worker_terminal_statuses (codes "running") ≡ false
unfolding has text_eq
running_open = refl

-- A round that was opened.
abbrev pub opened : Text → ℕ → Bool → WorkerRecord → WorkerRecord
opened at floor worker r = forget_transcript at worker (open_round at floor worker (is_settled r) r)

pub reopen_ended :
    (at : Text) (floor : ℕ) (r : WorkerRecord)
    → has worker_terminal_statuses r.transport_status ≡ true
    → reopen_worker_continuation at floor r
      ≡ opened at floor (is_fusion_worker_agent r.agent_type) r
unfolding reopen_worker_continuation
reopen_ended at floor r h = rw h refl

pub reopen_open :
    (at : Text) (floor : ℕ) (r : WorkerRecord)
    → has worker_terminal_statuses r.transport_status ≡ false
    → reopen_worker_continuation at floor r ≡ r
unfolding reopen_worker_continuation
reopen_open at floor r h = rw h refl

opened_running :
    (at : Text) (floor : ℕ) (worker : Bool) (r : WorkerRecord)
    → (opened at floor worker r).transport_status ≡ codes "running"
unfolding forget_transcript open_round
opened_running at floor true r = refl
opened_running at floor false r = refl

-- A worker that was reopened runs, so that reopening it again changes nothing.
pub reopen_worker_continuation_twice :
    (at at' : Text) (floor floor' : ℕ) (r : WorkerRecord)
    → reopen_worker_continuation at' floor' (reopen_worker_continuation at floor r)
      ≡ reopen_worker_continuation at floor r
reopen_worker_continuation_twice at at' floor floor' r =
    reopen_open at' floor' (reopen_worker_continuation at floor r)
      (elim (Bool-cases (has worker_terminal_statuses r.transport_status)) [
        | inl y ↦
            rw
              (
                reopen_ended at floor r y,
                opened_running at floor (is_fusion_worker_agent r.agent_type) r,
              )
              running_open
        | inr n ↦ rw (reopen_open at floor r n) n
      ])

no_usage : (m : Option ℕ) → or_else m 0 - or_else (some (or_else m 0)) 0 ≡ 0
no_usage none = refl
no_usage (some n) = omega arith

opened-IsWithin :
    (parse_date : Text → Option ℕ) (at : Text) (floor : ℕ) (worker : Bool) (r : WorkerRecord)
    (now : ℕ) (l : Limits)
    → IsPositive l
    → is_empty at ≡ false
    → Within (parse_date at) l.wall_clock_ms now
    → IsWithin parse_date (opened at floor worker r) now l
unfolding forget_transcript open_round baseline_of worker_round_usage
opened-IsWithin parse_date at floor true r now l p e w = record {
  wall = w;
  stall = λ y. absurd (ground arith);
  turns = rw (no_usage r.turns) p.max_turns;
  output_tokens = rw (no_usage r.usage.output_tokens) p.max_output_tokens;
  uncached_tokens = rw (no_usage r.usage.uncached_tokens) p.max_uncached_tokens;
}
opened-IsWithin parse_date at floor false r now l p e w = record {
  wall = w;
  stall = λ y. absurd (ground arith);
  turns = rw (no_usage r.turns) p.max_turns;
  output_tokens = rw (no_usage r.usage.output_tokens) p.max_output_tokens;
  uncached_tokens = rw (no_usage r.usage.uncached_tokens) p.max_uncached_tokens;
}

opened_limits :
    (at : Text) (floor : ℕ) (worker : Bool) (r : WorkerRecord)
    → (opened at floor worker r).limits ≡ r.limits
unfolding forget_transcript open_round
opened_limits at floor true r = refl
opened_limits at floor false r = refl

-- A worker that had ended and is reopened is over no budget: its new round starts from no usage and
-- with a call in flight, so that only its wall clock runs, from the time of the reopening. The record
-- has limits, none of them 0, and that time is written in some way and lies less than the wall clock
-- limit back, if it is a date.
pub worker_budget_failure-reopen_worker_continuation :
    (parse_date : Text → Option ℕ) (at : Text) (floor : ℕ) (r : WorkerRecord) (now : ℕ) (l : Limits)
    → has worker_terminal_statuses r.transport_status ≡ true
    → r.limits ≡ some l
    → IsPositive l
    → is_empty at ≡ false
    → Within (parse_date at) l.wall_clock_ms now
    → worker_budget_failure parse_date (reopen_worker_continuation at floor r) now ≡ none
worker_budget_failure-reopen_worker_continuation parse_date at floor r now l ended limits p e w =
    let worker = is_fusion_worker_agent r.agent_type in
    subst (λ r'. worker_budget_failure parse_date r' now ≡ none)
      (sym (reopen_ended at floor r ended))
      ((worker_budget_failure_iff parse_date (opened at floor worker r) now l
          (opened_limits at floor worker r ∙ limits)).1
        (opened-IsWithin parse_date at floor worker r now l p e w))
