-- ===== src/Worker/Archive.antt =====
-- plugins/fusion/scripts/lib/worker-state.mjs, `reopenWorkerContinuation`: what is kept of a round that
-- is over.
use mathlib.Core.List.{append-nil, append_assoc}
use claude_code_fusion.Common.{
  ℕ, ◌≡◌, refl, sym, ap, ◌∙◌, Bool, true, false, none, some, List, [], ◌∷◌, ◌++◌, arith, inl, inr,
  Bool-cases, not, ◌&&◌,
}
use claude_code_fusion.Common.Text.{Text, codes, has}
use claude_code_fusion.Worker.Agents.{worker_terminal_statuses}
use claude_code_fusion.Worker.Records.{Continuation, WorkerRecord}
use claude_code_fusion.Worker.Reopen.{
  is_fusion_worker_agent, is_settled, archived_ids, round_ids, id_list, continuation_of, open_round,
  forget_transcript, reopen_worker_continuation,
}
use claude_code_fusion.Worker.Ids.{
  has-keep, has-distinct_all, NoRepeat, distinct-NoRepeat, append-NoRepeat,
}
use claude_code_fusion.Worker.Rounds.{opened, reopen_ended, reopen_open}

archived_ids-append :
    (rounds : List Continuation) (c : Continuation)
    → archived_ids (rounds ++ c ∷ []) ≡ archived_ids rounds ++ c.peer_job_ids
unfolding archived_ids
archived_ids-append [] c = append-nil c.peer_job_ids
archived_ids-append (d ∷ rounds) c =
    ap (◌++◌ d.peer_job_ids) (archived_ids-append rounds c)
    ∙ sym (append_assoc d.peer_job_ids (archived_ids rounds) c.peer_job_ids)

-- The ids of a round are those of the record that no earlier round has.
has-round_ids :
    (r : WorkerRecord) (id : Text)
    → has (round_ids r) id
      ≡ has (r.peer_job_ids ++ id_list r.peer_job_id) id
        && not (has (archived_ids r.continuations) id)
unfolding round_ids
has-round_ids r id =
    has-distinct_all _ id
    ∙ has-keep (λ t. not (has (archived_ids r.continuations) t))
        (r.peer_job_ids ++ id_list r.peer_job_id) id

opened_settled :
    (at : Text) (floor : ℕ) (worker : Bool) (r : WorkerRecord)
    → is_settled r ≡ true
    → (opened at floor worker r).continuations ≡ r.continuations ++ continuation_of at r ∷ []
unfolding forget_transcript open_round
opened_settled at floor true r s = rw s refl
opened_settled at floor false r s = rw s refl

opened_unsettled :
    (at : Text) (floor : ℕ) (worker : Bool) (r : WorkerRecord)
    → is_settled r ≡ false
    → (opened at floor worker r).continuations ≡ r.continuations
unfolding forget_transcript open_round
opened_unsettled at floor true r s = rw s refl
opened_unsettled at floor false r s = rw s refl

archived_ids-continuation_of :
    (at : Text) (r : WorkerRecord)
    → archived_ids (r.continuations ++ continuation_of at r ∷ [])
      ≡ archived_ids r.continuations ++ round_ids r
unfolding continuation_of
archived_ids-continuation_of at r = archived_ids-append r.continuations (continuation_of at r)

archived_ids-NoRepeat :
    (at : Text) (r : WorkerRecord)
    → NoRepeat (archived_ids r.continuations)
    → NoRepeat (archived_ids (r.continuations ++ continuation_of at r ∷ []))
archived_ids-NoRepeat at r n = rw (archived_ids-continuation_of at r) (
    append-NoRepeat (archived_ids r.continuations) (round_ids r) n
      (unfold round_ids in distinct-NoRepeat [] _)
      (λ id h. let e = has-round_ids r id in ground arith))

-- No id of a job stands twice in the archived rounds, not in two rounds and not in one; a reopening
-- keeps that so.
pub reopen_worker_continuation-NoRepeat :
    (at : Text) (floor : ℕ) (r : WorkerRecord)
    → NoRepeat (archived_ids r.continuations)
    → NoRepeat (archived_ids (reopen_worker_continuation at floor r).continuations)
reopen_worker_continuation-NoRepeat at floor r n =
    let worker = is_fusion_worker_agent r.agent_type in
    elim (Bool-cases (has worker_terminal_statuses r.transport_status)) [
      | inr running ↦ rw (reopen_open at floor r running) n
      | inl ended ↦ rw (reopen_ended at floor r ended) (elim (Bool-cases (is_settled r)) [
        | inl y ↦ rw (opened_settled at floor worker r y) (archived_ids-NoRepeat at r n)
        | inr u ↦ rw (opened_unsettled at floor worker r u) n
      ])
    ]

-- No verdict of the round is recorded, queued or awaited, and no reason or source of one is left.
pub record IsUnjudged (r : WorkerRecord) : Type 0 where
  pub acceptance : r.acceptance ≡ some (codes "unverified")
  pub recorded : r.acceptance_recorded_at ≡ none
  pub reason : r.acceptance_reason ≡ none
  pub failure_kind : r.acceptance_failure_kind ≡ none
  pub source : r.acceptance_source ≡ none
  pub queued : r.pending_verdict ≡ none
  pub refused : r.pending_verdict_error ≡ none
  pub awaited : r.awaiting_verdict ≡ false

-- What the archive and the record hold when a settled round is over.
pub record IsArchived (at : Text) (r r' : WorkerRecord) : Type 0 where
  pub kept : r'.continuations ≡ r.continuations ++ continuation_of at r ∷ []
  pub all_ids :
      (id : Text)
      → has (r.peer_job_ids ++ id_list r.peer_job_id) id ≡ true
      → has (archived_ids r'.continuations) id ≡ true
  pub no_ids : (id : Text) → has (round_ids r') id ≡ false
  pub no_peer : r'.peer_job_id ≡ none
  pub unjudged : IsUnjudged r'
