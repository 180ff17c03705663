-- ===== src/Codex/Final.antt =====
-- plugins/codex/scripts/lib/state.mjs: what can still change in a job that has ended.
use mathlib.Core.Path.{subst}
use claude_code_fusion.Common.{
  false-ne-true, ℕ, ◌≡◌, refl, sym, ap, ◌∙◌, inl, inr, Bool, true, false, Option, some, List, [],
  ◌∷◌, if◌then◌else◌, or_else, is_some, Bool-cases, All, if-both,
}
use claude_code_fusion.Common.Text.{Text, has}
use claude_code_fusion.Codex.Records.{
  Job, Patch, JobResult, ok, err, invalid_record, terminal_statuses, is_terminal, valid_job,
  assert_job_record,
}
use claude_code_fusion.Codex.Jobs.{
  Stored, written, store, write_job_record_file, update_job_record_file,
  update_job_record_file_with_current, finish_job_record_file, collected, has_text,
  mark_job_collected_file,
}
use claude_code_fusion.Codex.Finished.{
  Op, write, update, revise, finish, collect, run_op, run_ops, or_kept,
}

module _ (date_parse : Text → Option ℕ) where
  -- An operation that does not ask to change a job that has ended.
  abbrev IsPlain : Op date_parse → Type 0
  IsPlain (revise now f allow) = allow ≡ false
  IsPlain _ = Unit

  -- `j`, but for the marks of its collection.
  abbrev marked : Option Text → Option Text → Job → Job
  marked c d j = record j { collected_at = c; delivery_collected_at = d }

  -- `f` holds what `j` does, but for the marks of its collection, and all of it if `j` is collected.
  record Rests (j : Job) (f : Stored) : Type 0 where
    at : Option Text
    delivered : Option Text
    same : f ≡ some (marked at delivered j)
    unless : has_text j.collected_at ≡ true → f ≡ some j

  rests : (j : Job) → Rests j (some j)
  rests j = record {
    at = j.collected_at;
    delivered = j.delivery_collected_at;
    same = refl;
    unless = λ _. refl;
  }

  update-ended :
      (now : Text) (p : Patch) (j : Job)
      → is_terminal j ≡ true
      → (update_job_record_file date_parse now p (some j)).0 ≡ some j
  unfolding update_job_record_file
  update-ended now p j t = rw t refl

  revise-ended :
      (now : Text) (f : Job → JobResult (Option Patch)) (allow : Bool) (j : Job)
      → allow ≡ false
      → is_terminal j ≡ true
      → (update_job_record_file_with_current date_parse now f allow (some j)).0 ≡ some j
  unfolding update_job_record_file_with_current
  revise-ended now f allow j plain t = rw (t, plain) refl

  write-ended :
      (n j : Job)
      → is_terminal j ≡ true
      → or_kept (some j) (write_job_record_file date_parse n (some j)) ≡ some j
  unfolding write_job_record_file assert_job_record
  write-ended n j t = go (valid_job date_parse n)
    where
      go :
          (b : Bool)
          → or_kept (some j) (store (some j) (if b then ok n else err invalid_record)) ≡ some j
      go true = rw t refl
      go false = refl

  collect-Rests :
      (at : Text) (j : Job)
      → is_terminal j ≡ true
      → Rests j (mark_job_collected_file date_parse at (some j)).0
  unfolding mark_job_collected_file assert_job_record collected
  collect-Rests at j t = elim (Bool-cases (has_text j.collected_at)) [
    | inl y ↦ rw (t, y) (both (is_some (date_parse at)) _ _ (rests j) (rests j))
    | inr n ↦
        rw (t, n)
          (both (is_some (date_parse at)) _ _ (opened (valid_job date_parse (collected at j)) n)
            (rests j))
  ]
    where
      both :
          (b : Bool) (x y : Stored × JobResult Job)
          → Rests j x.0
          → Rests j y.0
          → Rests j (if b then x else y).0
      both b x y h k = if-both (λ (x : Stored × JobResult Job). Rests j x.0) b h k

      opened :
          (b : Bool)
          → has_text j.collected_at ≡ false
          → Rests j (written j (if b then ok (collected at j) else err invalid_record)).0
      opened true n = record {
        at = _;
        delivered = _;
        same = refl;
        unless = λ y. absurd (false-ne-true (sym n ∙ y));
      }
      opened false n = rests j

  run_op-Rests :
      (o : Op date_parse) (j : Job)
      → IsPlain o
      → is_terminal j ≡ true
      → Rests j (run_op date_parse o (some j))
  unfolding update_job_record_file_with_current finish_job_record_file
  run_op-Rests (write n) j plain t = subst (Rests j) (sym (write-ended n j t)) (rests j)
  run_op-Rests (update now p) j plain t = subst (Rests j) (sym (update-ended now p j t)) (rests j)
  run_op-Rests (revise now f allow) j plain t =
      subst (Rests j) (sym (revise-ended now f allow j plain t)) (rests j)
  run_op-Rests (finish now p) j plain t =
      if-both (λ (x : Stored × JobResult Job). Rests j x.0)
        (has terminal_statuses (or_else p.status []))
        (subst (Rests j) (sym (update-ended now p j t)) (rests j)) (rests j)
  run_op-Rests (collect at) j plain t = collect-Rests at j t

  marked-terminal :
      (c d : Option Text) (j : Job) → is_terminal j ≡ true → is_terminal (marked c d j) ≡ true
  unfolding is_terminal
  marked-terminal c d j t = t

  more-Rests :
      (o : Op date_parse) (j : Job) (f : Stored)
      → IsPlain o
      → is_terminal j ≡ true
      → Rests j f
      → Rests j (run_op date_parse o f)
  more-Rests o j f plain t r =
      let next =
        run_op-Rests o (marked r.at r.delivered j) plain (marked-terminal r.at r.delivered j t) in
      record {
        at = next.at;
        delivered = next.delivered;
        same = ap (run_op date_parse o) r.same ∙ next.same;
        unless = λ y. ap (run_op date_parse o) (r.unless y) ∙ (run_op-Rests o j plain t).unless y;
      }

  run_ops-Rests :
      (os : List (Op date_parse)) (j : Job) (f : Stored)
      → All IsPlain os
      → is_terminal j ≡ true
      → Rests j f
      → Rests j (run_ops date_parse os f)
  unfolding run_ops
  run_ops-Rests [] j f plain t r = r
  run_ops-Rests (o ∷ os) j f (plain, plains) t r =
      run_ops-Rests os j (run_op date_parse o f) plains t (more-Rests o j f plain t r)

  -- Behind any operations that do not ask to change a job that has ended, such a job is as it was, but for
  -- the marks of its collection; and if it had been collected, it is as it was.
  pub run_ops-final :
      (os : List (Op date_parse)) (j : Job)
      → All IsPlain os
      → is_terminal j ≡ true
      → ((at : Option Text) × (delivered : Option Text) × (run_ops date_parse os (some j)
            ≡ some (record j { collected_at = at; delivery_collected_at = delivered })))
        × (has_text j.collected_at ≡ true → run_ops date_parse os (some j) ≡ some j)
  run_ops-final os j plain t =
      let r = run_ops-Rests os j (some j) plain t (rests j) in
      ((r.at, r.delivered, r.same), r.unless)
