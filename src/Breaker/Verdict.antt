-- ===== src/Breaker/Verdict.antt =====
-- plugins/fusion/scripts/breaker-check.mjs, `latestBreakerFailure`: when the breaker is open.
use claude_code_fusion.Common.{
  ℕ, ◌≡◌, ◌≢◌, refl, sym, ap, ◌∙◌, Bool, true, false, Option, none, List, [], ◌∷◌, ◌++◌, arith,
  if◌then◌else◌, All,
}
use claude_code_fusion.Common.Text.{Text}
use claude_code_fusion.Breaker.Records.{Failure}
use claude_code_fusion.Breaker.Latest.{
  Outcome, Breaker, closed, breaker_step, fail_step, run_breaker, newer_failure, verdict,
}
use claude_code_fusion.Breaker.Standing.{NoSuccess, Reports, is_hard, Hard}

immediate_stays :
    (lookback : ℕ) (after : List Outcome) (b : Breaker)
    → All NoSuccess after
    → b.immediate ≢ none
    → (run_breaker lookback b after).immediate ≢ none
unfolding run_breaker breaker_step
immediate_stays lookback [] b n h = h
immediate_stays lookback (o ∷ os) b n h =
    immediate_stays lookback os (breaker_step lookback b o) n.1 (stays o.ignored o.failure_kind n.0)
  where
    stays :
        (g : Bool) (m : Option Text)
        → o.succeeded ≡ false
        → (if o.succeeded
            then closed
            else if o.ignored
            then b
            else fail_step lookback b o o.failure_kind).immediate
          ≢ none
    stays g m e = ground arith

run_breaker-append :
    (lookback : ℕ) (os ps : List Outcome) (b : Breaker)
    → run_breaker lookback b (os ++ ps) ≡ run_breaker lookback (run_breaker lookback b os) ps
unfolding run_breaker
run_breaker-append lookback [] ps b = refl
run_breaker-append lookback (o ∷ os) ps b =
    run_breaker-append lookback os ps (breaker_step lookback b o)

run_breaker-split :
    (lookback : ℕ) (before : List Outcome) (o : Outcome) (after : List Outcome)
    → run_breaker lookback closed (before ++ o ∷ after)
      ≡ run_breaker lookback (breaker_step lookback (run_breaker lookback closed before) o) after
unfolding run_breaker
run_breaker-split lookback before o after = run_breaker-append lookback before (o ∷ after) closed

hard_opens :
    (lookback : ℕ) (b : Breaker) (o : Outcome) (f : Failure)
    → Reports o f
    → is_hard f.failure_kind ≡ true
    → (breaker_step lookback b o).immediate ≢ none
unfolding breaker_step
hard_opens lookback b o f r h = rw (r.0, r.1, r.2) (rw h (λ e. cc))

newer_failure-ne-none : (m r : Option Failure) → m ≢ none → newer_failure m r ≢ none
unfolding newer_failure
newer_failure-ne-none m r h = ground arith

-- A hard failure with no success behind it opens the breaker, whatever else was recorded.
pub verdict_complete :
    (lookback : ℕ) (os : List Outcome) (f : Failure) → Hard os f → verdict lookback os ≢ none
unfolding verdict
verdict_complete lookback os f (s, h) = newer_failure-ne-none _ _ (λ e.
    immediate_stays lookback s.after
      (breaker_step lookback (run_breaker lookback closed s.before) s.outcome) s.no_success
      (hard_opens lookback (run_breaker lookback closed s.before) s.outcome f s.reports h)
      (ap (λ x. x.immediate)
          (sym (
            ap (run_breaker lookback closed) s.splits
            ∙ run_breaker-split lookback s.before s.outcome s.after))
        ∙ e))

-- After a success the breaker is closed by everything before it.
verdict_success :
    (lookback : ℕ) (before : List Outcome) (o : Outcome) (after : List Outcome)
    → o.succeeded ≡ true
    → verdict lookback (before ++ o ∷ after) ≡ verdict lookback after
unfolding verdict run_breaker breaker_step
verdict_success lookback before o after h =
    rw (run_breaker-append lookback before (o ∷ after) closed) (rw h)
