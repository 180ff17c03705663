-- ===== src/Worker/Settled.antt =====
-- plugins/fusion/scripts/lib/worker-state.mjs: verdicts on a worker along the steps of its record.
use mathlib.Core.Path.{subst}
use claude_code_fusion.Common.{
  ◌≡◌, refl, ap, sym, ◌∙◌, inl, inr, Bool, true, false, not, ◌&&◌, Option, none, some, arith,
  Bool-cases,
}
use claude_code_fusion.Common.Text.{Text, codes, text_eq, has}
use claude_code_fusion.Worker.Agents.{worker_terminal_statuses}
use claude_code_fusion.Worker.Records.{PendingVerdict, VerdictError, WorkerRecord}
use claude_code_fusion.Worker.Reasons.{safe_reason}
use claude_code_fusion.Worker.Verdicts.{
  Verdict, field_error, worker_acceptance_gate, is_collector, settle_worker_acceptance, first_error,
  settle_queued, apply_verdict, apply_pending, apply_queued_verdict, Recorded, refused, recorded,
  queue_verdict, record_unless, record_worker_acceptance,
}

abbrev pub is_terminal : WorkerRecord → Bool
is_terminal r = has worker_terminal_statuses r.transport_status

-- The transport of the worker ends.
abbrev pub ended : Text → WorkerRecord → WorkerRecord
ended status r = record r { transport_status = status }

abbrev record_in : WorkerRecord → Recorded → WorkerRecord
record_in r (refused e) = r
record_in r (recorded queued t) = t

recorded_eq :
    (queued other : Bool) (r t : WorkerRecord) → recorded queued r ≡ recorded other t → r ≡ t
recorded_eq queued other r t h = ap (record_in r) h

record_running :
    (v : Verdict) (at : Text) (r : WorkerRecord)
    → is_terminal r ≡ false
    → record_worker_acceptance v at r
      ≡ record_unless (field_error v.acceptance v.source v.failure_kind) true (queue_verdict v at r)
unfolding record_worker_acceptance
record_running v at r running = rw running refl

queued_lem :
    (e : Option VerdictError) (r q : WorkerRecord)
    → record_unless e true r ≡ recorded true q
    → (e ≡ none) × (r ≡ q)
queued_lem none r q h = (refl, recorded_eq true true r q h)
queued_lem (some e) r q h = absurd (ground arith)

settled_unless :
    (e f : Option VerdictError) (r t : WorkerRecord)
    → record_unless (first_error e f) false r ≡ recorded false t
    → (e ≡ none) × (f ≡ none) × (r ≡ t)
settled_unless none none r t h = (refl, refl, recorded_eq false false r t h)
settled_unless none (some f) r t h = absurd (ground arith)
settled_unless (some e) f r t h = absurd (ground arith)

queued_is_not_settled :
    (e : Option VerdictError) (r t : WorkerRecord) → record_unless e true r ≡ recorded false t → ⊥
queued_is_not_settled none r t h = ground arith
queued_is_not_settled (some e) r t h = ground arith

-- A verdict that is recorded at once: the worker has ended, and there is no error.
settled_lem :
    (v : Verdict) (at : Text) (r t : WorkerRecord)
    → record_worker_acceptance v at r ≡ recorded false t
    → (is_terminal r ≡ true)
      × ((field_error v.acceptance v.source v.failure_kind ≡ none)
          × (worker_acceptance_gate v.acceptance v.accept_failed_transport v.engine_ledger_written r
              ≡ none)
          × (settle_worker_acceptance v.acceptance v.source
                (safe_reason v.reason)
                v.failure_kind
                at
                r
              ≡ t))
unfolding record_worker_acceptance
settled_lem v at r t k = elim (Bool-cases (is_terminal r)) [
  | inl y ↦ (y, settled_unless _ _ _ t (simp y at k))
  | inr n ↦ absurd (queued_is_not_settled _ _ t (simp n at k))
]

applied_lem :
    (v : Verdict) (queued_at at status : Text) (r : WorkerRecord)
    → is_terminal (ended status r) ≡ true
    → (text_eq v.acceptance (codes "accepted") && not (text_eq status (codes "done"))) ≡ false
    → field_error v.acceptance v.source v.failure_kind ≡ none
    → worker_acceptance_gate v.acceptance v.accept_failed_transport false (ended status r) ≡ none
    → apply_queued_verdict at (ended status (queue_verdict v queued_at r))
      ≡ record (settle_worker_acceptance v.acceptance v.source
          (safe_reason v.reason)
          v.failure_kind
          at
          (ended status r)) { acceptance_reason = safe_reason (safe_reason v.reason) }
unfolding apply_queued_verdict worker_acceptance_gate is_collector settle_worker_acceptance
applied_lem v queued_at at status r over fits valid passes = rw (over, fits, valid, passes) refl

-- A verdict with no ledger entry of an engine that was queued while the worker ran, and is applied when the
-- worker has ended, settles the worker as the same verdict does that is recorded then, but for the reason,
-- which is made safe twice. The conditions are that the verdict is taken both times, and that it is not an
-- acceptance of a worker whose status is not `done`.
pub apply_queued_verdict-record_worker_acceptance :
    (v : Verdict) (queued_at at status : Text) (r q t : WorkerRecord)
    → v.engine_ledger_written ≡ false
    → is_terminal r ≡ false
    → (text_eq v.acceptance (codes "accepted") && not (text_eq status (codes "done"))) ≡ false
    → record_worker_acceptance v queued_at r ≡ recorded true q
    → record_worker_acceptance v at (ended status r) ≡ recorded false t
    → apply_queued_verdict at (ended status q)
      ≡ record t { acceptance_reason = safe_reason (safe_reason v.reason) }
apply_queued_verdict-record_worker_acceptance v queued_at at status r q t l running fits h k =
    let (valid, same) =
      queued_lem _ _ q
        (subst (λ x. x ≡ recorded true q) (record_running v queued_at r running) h) in
    let (over, (valid_too, passes, settled)) = settled_lem v at (ended status r) t k in
    ap (λ x. apply_queued_verdict at (ended status x)) (sym same)
    ∙ applied_lem v queued_at at status r over fits valid (
        subst
          (λ b.
            worker_acceptance_gate v.acceptance v.accept_failed_transport b (ended status r) ≡ none)
          l passes)
    ∙ ap (λ (x : WorkerRecord). record x { acceptance_reason = safe_reason (safe_reason v.reason) })
        settled

settle_queued_twice :
    (v : PendingVerdict) (at later : Text) (r : WorkerRecord) (e : Option VerdictError)
    → r.pending_verdict ≡ some v
    → is_terminal r ≡ true
    → (text_eq v.acceptance (codes "accepted") && not (text_eq r.transport_status (codes "done")))
      ≡ false
    → first_error
        (field_error v.acceptance v.source v.failure_kind)
        (worker_acceptance_gate v.acceptance v.accept_failed_transport false r)
      ≡ e
    → apply_queued_verdict later (settle_queued v at r e) ≡ settle_queued v at r e
unfolding apply_queued_verdict settle_worker_acceptance worker_acceptance_gate is_collector
settle_queued_twice v at later r none p over fits k = refl
settle_queued_twice v at later r (some e) p over fits k = rw (p, over, fits, k) refl

apply_verdict_twice :
    (v : PendingVerdict) (at later : Text) (r : WorkerRecord)
    → r.pending_verdict ≡ some v
    → is_terminal r ≡ true
    → apply_queued_verdict later (apply_verdict v at r) ≡ apply_verdict v at r
unfolding apply_queued_verdict
apply_verdict_twice v at later r p over =
    elim (Bool-cases (
      text_eq v.acceptance (codes "accepted") && not (text_eq r.transport_status (codes "done")))) [
        | inl y ↦ rw y refl
        | inr n ↦ rw n (settle_queued_twice v at later r _ p over n refl)
      ]

some_over :
    (v : PendingVerdict) (at : Text) (r : WorkerRecord)
    → is_terminal r ≡ true
    → apply_pending (some v) at r ≡ apply_verdict v at r
some_over v at r over = rw over refl

some_running :
    (v : PendingVerdict) (at : Text) (r : WorkerRecord)
    → is_terminal r ≡ false
    → apply_pending (some v) at r ≡ r
some_running v at r n = rw n refl

pending_twice :
    (at later : Text) (m : Option PendingVerdict) (r : WorkerRecord)
    → r.pending_verdict ≡ m
    → apply_queued_verdict later (apply_queued_verdict at r) ≡ apply_queued_verdict at r
unfolding apply_queued_verdict
pending_twice at later none r p =
    subst (λ z. apply_queued_verdict later z ≡ z) (sym (ap (λ m. apply_pending m at r) p))
      (ap (λ m. apply_pending m later r) p)
pending_twice at later (some v) r p = elim (Bool-cases (is_terminal r)) [
  | inl over ↦
      subst (λ z. apply_queued_verdict later z ≡ z)
        (sym (ap (λ m. apply_pending m at r) p ∙ some_over v at r over))
        (apply_verdict_twice v at later r p over)
  | inr n ↦
      subst (λ z. apply_queued_verdict later z ≡ z)
        (sym (ap (λ m. apply_pending m at r) p ∙ some_running v at r n))
        (ap (λ m. apply_pending m later r) p ∙ some_running v later r n)
]

-- Applying the queued verdict once more changes nothing.
apply_queued_verdict_twice :
    (at later : Text) (r : WorkerRecord)
    → apply_queued_verdict later (apply_queued_verdict at r) ≡ apply_queued_verdict at r
apply_queued_verdict_twice at later r = pending_twice at later r.pending_verdict r refl
