-- ===== src/Codex/Finishing.antt =====
-- plugins/codex/scripts/lib/state.mjs: how a job ends by `finishJobRecordFile`.
use claude_code_fusion.Common.{
  ℕ, ◌≡◌, refl, sym, ap, ◌∙◌, inl, inr, Bool, true, false, ◌&&◌, ◌||◌, Option, none, some, List, [],
  ◌∷◌, arith, or_else, is_some, Bool-cases, &&-eq-true, if-both,
}
use claude_code_fusion.Common.Text.{Text, codes, text_eq, text_eq_iff, has}
use claude_code_fusion.Codex.Records.{
  Job, Patch, ok, either, flat, passes, terminal_statuses, is_terminal, valid_id, valid_job,
  assert_job_record, job_statuses, delivery_modes, semantic_statuses, job_failure_kinds,
  acceptance_sources, is_date,
}
use claude_code_fusion.Codex.Jobs.{
  spread, settled_status, terminal_patch, merged, merge_record, update_job_record_file,
  finish_job_record_file,
}
use claude_code_fusion.Codex.Finished.{IsSettled, merged-IsSettled}

module _ (date_parse : Text → Option ℕ) where
  -- The values that a patch sets are such as `assertJobRecord` accepts.
  unfoldable pub valid_patch : Patch → Bool
  valid_patch p =
      passes (has semantic_statuses) (flat p.semantic_status)
      && (passes (has job_failure_kinds) (flat p.semantic_failure_kind)
          && (passes (has acceptance_sources) (flat p.acceptance_source)
              && passes (is_date date_parse) (flat p.acceptance_recorded_at)))

  -- What `finishJobRecordFile` leaves.
  pub record Finished (j : Job) (p : Patch) (next : Job) : Type 0 where
    pub settled : IsSettled next
    pub over : is_terminal next ≡ true
    pub cancels : is_some j.cancel_requested_at ≡ true → next.status ≡ codes "cancelled"
    pub asked : j.cancel_requested_at ≡ none → p.status ≡ some next.status

  passes-set {ℓ} :
      {A : Type ℓ} (q : A → Bool) (p : Option (Option A)) (o : Option A)
      → passes q (flat p) ≡ true
      → passes q o ≡ true
      → passes q (or_else p o) ≡ true
  passes-set q none o h k = k
  passes-set q (some a) o h k = h

  passes-either {ℓ} :
      {A : Type ℓ} (q : A → Bool) (p o : Option A)
      → passes q p ≡ true
      → passes q o ≡ true
      → passes q (either p o) ≡ true
  passes-either q none o h k = k
  passes-either q (some a) o h k = h

  settled_status-terminal :
      (p : Patch) (j : Job)
      → has terminal_statuses (or_else p.status j.status) ≡ true
      → has terminal_statuses (settled_status p j) ≡ true
  unfolding settled_status has text_eq
  settled_status-terminal p j h =
      if-both (λ (s : Text). has terminal_statuses s ≡ true)
        (is_some j.cancel_requested_at || text_eq (or_else p.status j.status) (codes "cancelled"))
        cancelled h
    where
      cancelled : has terminal_statuses (codes "cancelled") ≡ true
      cancelled = refl

  has-more : (w : Text) (ws : List Text) (t : Text) → has ws t ≡ true → has (w ∷ ws) t ≡ true
  unfolding has
  has-more w ws t h = ground (arith, h)

  -- The parts of `assertJobRecord`.
  record Parts (j : Job) : Type 0 where
    id : valid_id j.id ≡ true
    status : has job_statuses j.status ≡ true
    delivery : passes (has delivery_modes) j.delivery ≡ true
    semantic_status : passes (has semantic_statuses) j.semantic_status ≡ true
    failure_kind : passes (has job_failure_kinds) j.semantic_failure_kind ≡ true
    source : passes (has acceptance_sources) j.acceptance_source ≡ true
    recorded : passes (is_date date_parse) j.acceptance_recorded_at ≡ true

  parts : (j : Job) → valid_job date_parse j ≡ true → Parts j
  unfolding valid_job
  parts j h =
      let (a, h1) = &&-eq-true {a = valid_id j.id} h in
      let (b, h2) = &&-eq-true {a = has job_statuses j.status} h1 in
      let (c, h3) = &&-eq-true {a = passes (has delivery_modes) j.delivery} h2 in
      let (d, h4) = &&-eq-true {a = passes (has semantic_statuses) j.semantic_status} h3 in
      let (e, h5) = &&-eq-true {a = passes (has job_failure_kinds) j.semantic_failure_kind} h4 in
      let (f, g) = &&-eq-true {a = passes (has acceptance_sources) j.acceptance_source} h5 in
      record {
        id = a;
        status = b;
        delivery = c;
        semantic_status = d;
        failure_kind = e;
        source = f;
        recorded = g;
      }

  whole : (j : Job) → Parts j → valid_job date_parse j ≡ true
  unfolding valid_job
  whole j k =
      rw (k.id, k.status, k.delivery, k.semantic_status, k.failure_kind, k.source, k.recorded) refl

  terminal-valid :
      (now : Text) (p : Patch) (j : Job) (owner : Option Text)
      → has terminal_statuses (or_else p.status j.status) ≡ true
      → valid_patch p ≡ true
      → Parts j
      → Parts (record (terminal_patch now p j) { claude_session_id = owner })
  unfolding terminal_patch spread valid_patch
  terminal-valid now p j owner h v k =
      let (a, v1) = &&-eq-true {a = passes (has semantic_statuses) (flat p.semantic_status)} v in
      let (b, v2) =
        &&-eq-true {a = passes (has job_failure_kinds) (flat p.semantic_failure_kind)} v1 in
      let (c, d) = &&-eq-true {a = passes (has acceptance_sources) (flat p.acceptance_source)} v2 in
      record {
        id = k.id;
        status =
            has-more (codes "running") terminal_statuses (settled_status p j)
              (settled_status-terminal p j h);
        delivery = k.delivery;
        semantic_status = passes-set _ p.semantic_status j.semantic_status a k.semantic_status;
        failure_kind =
            passes-set _ p.semantic_failure_kind j.semantic_failure_kind b k.failure_kind;
        source = passes-either _ (flat p.acceptance_source) j.acceptance_source c k.source;
        recorded =
            passes-either _ (flat p.acceptance_recorded_at) j.acceptance_recorded_at d k.recorded;
      }

  merged-Parts :
      (now : Text) (p : Patch) (j : Job)
      → has terminal_statuses (or_else p.status j.status) ≡ true
      → valid_patch p ≡ true
      → Parts j
      → Parts (merged now p j)
  unfolding merged
  merged-Parts now p j h v k = rw h (terminal-valid now p j _ h v k)

  merged-status :
      (now : Text) (p : Patch) (j : Job)
      → has terminal_statuses (or_else p.status j.status) ≡ true
      → (merged now p j).status ≡ settled_status p j
  unfolding merged terminal_patch
  merged-status now p j h = rw h refl

  settled-cancels :
      (p : Patch) (j : Job)
      → is_some j.cancel_requested_at ≡ true
      → settled_status p j ≡ codes "cancelled"
  unfolding settled_status
  settled-cancels p j c = rw c refl

  settled-asked :
      (p : Patch) (j : Job) (s : Text)
      → p.status ≡ some s
      → j.cancel_requested_at ≡ none
      → settled_status p j ≡ s
  unfolding settled_status
  settled-asked p j s e c = elim (Bool-cases (text_eq s (codes "cancelled"))) [
    | inl y ↦ rw (e, c, y) (sym ((text_eq_iff s (codes "cancelled")).0 y))
    | inr n ↦ rw (e, c, n) refl
  ]

  -- A job that runs and that is finished with a patch of valid values is stored with its end: cancelled if
  -- that had been asked for, else with the status of the patch.
  pub finish_job_record_file-Finished :
      (now : Text) (p : Patch) (j : Job)
      → valid_job date_parse j ≡ true
      → is_terminal j ≡ false
      → valid_patch p ≡ true
      → has terminal_statuses (or_else p.status []) ≡ true
      → (next : Job) × (finish_job_record_file date_parse now p (some j) ≡ (some next, ok next))
        × Finished j p next
  unfolding finish_job_record_file update_job_record_file merge_record assert_job_record is_terminal
      has text_eq
  finish_job_record_file-Finished now p j w runs v h =
      let valid = whole (merged now p j) (merged-Parts now p j (asked p.status h) v (parts j w)) in
      (merged now p j, rw (h, runs, valid) refl, left)
    where
      asked :
          (s : Option Text)
          → has terminal_statuses (or_else s []) ≡ true
          → has terminal_statuses (or_else s j.status) ≡ true
      asked none e = absurd (ground arith)
      asked (some t) e = e

      terminal : has terminal_statuses (or_else p.status j.status) ≡ true
      terminal = asked p.status h

      over : is_terminal (merged now p j) ≡ true
      over =
          ap (has terminal_statuses) (merged-status now p j terminal)
          ∙ settled_status-terminal p j terminal

      as_asked :
          (o : Option Text)
          → p.status ≡ o
          → j.cancel_requested_at ≡ none
          → p.status ≡ some (merged now p j).status
      as_asked none e c =
          absurd
            (missing (ap (λ (x : Option Text). has terminal_statuses (or_else x [])) (sym e) ∙ h))
        where
          missing : has terminal_statuses [] ≡ true → ⊥
          missing b = ground arith
      as_asked (some s) e c =
          e
          ∙ ap (λ (x : Text). some x)
              (sym (merged-status now p j terminal ∙ settled-asked p j s e c))

      left : Finished j p (merged now p j)
      left = record {
        settled = merged-IsSettled now p j over;
        over = over;
        cancels = λ c. merged-status now p j terminal ∙ settled-cancels p j c;
        asked = as_asked p.status refl;
      }
