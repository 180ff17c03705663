-- ===== src/Codex/Finished.antt =====
-- plugins/codex/scripts/lib/state.mjs: a job that has ended keeps its end.
use claude_code_fusion.Common.{
  false-ne-true, ℕ, ◌≡◌, refl, sym, ◌∙◌, inl, inr, Bool, true, false, not, ◌&&◌, ◌||◌, Option, none,
  some, List, [], ◌∷◌, if◌then◌else◌, or_else, is_some, Bool-cases, All, if-both,
}
use claude_code_fusion.Common.Text.{Text, codes, text_eq, has}
use claude_code_fusion.Codex.Records.{
  Job, Patch, owner_session_id, JobResult, invalid_record, ok, err, either, terminal_statuses,
  is_terminal, valid_job, assert_job_record,
}
use claude_code_fusion.Codex.Jobs.{
  replaced, store, Stored, spread, terminal_patch, open_patch, merged, written, merge_record,
  write_job_record_file, update_job_record_file, revised, update_job_record_file_with_current,
  finish_job_record_file, collected, has_text, mark_job_collected_file,
}

-- Nothing of the run is left in the record, and a job that was cancelled says so.
pub record IsSettled (j : Job) : Type 0 where
  pub no_phase : j.phase ≡ none
  pub no_process : (j.pid ≡ none) × (j.pid_identity ≡ none) × (j.pid_owns_process_group ≡ false)
  pub no_codex :
      (j.codex_pid ≡ none)
      × (j.codex_pid_identity ≡ none)
      × (j.codex_pid_owns_process_group ≡ false)
  pub no_request : j.cancel_requested_at ≡ none
  pub has_end : is_some j.finished_at ≡ true
  pub cancelled :
      text_eq j.status (codes "cancelled") ≡ true → j.failure_kind ≡ some (codes "cancelled")

abbrev pub SettledFile : Stored → Type 0
SettledFile none = Unit
SettledFile (some j) = is_terminal j ≡ true → IsSettled j

either-is_some {ℓ} : {A : Type ℓ} (o : Option A) (a : A) → is_some (either o (some a)) ≡ true
either-is_some none a = refl
either-is_some (some b) a = refl

terminal-IsSettled :
    (now : Text) (p : Patch) (j : Job) (owner : Option Text)
    → IsSettled (record (terminal_patch now p j) { claude_session_id = owner })
unfolding terminal_patch spread
terminal-IsSettled now p j owner = record {
  no_phase = refl;
  no_process = (refl, refl, refl);
  no_codex = (refl, refl, refl);
  no_request = refl;
  has_end = either-is_some j.finished_at _;
  cancelled = λ e. rw e refl;
}

pub merged-IsSettled :
    (now : Text) (p : Patch) (j : Job)
    → is_terminal (merged now p j) ≡ true
    → IsSettled (merged now p j)
unfolding merged is_terminal open_patch spread
merged-IsSettled now p j = pick (has terminal_statuses (or_else p.status j.status)) refl
  where
    owner : Option Text
    owner = owner_session_id (or_else p.claude_session_id j.claude_session_id)

    pick :
        (b : Bool)
        → has terminal_statuses (or_else p.status j.status) ≡ b
        → is_terminal (record (if b then terminal_patch now p j else open_patch now p j) {
          claude_session_id = owner;
        })
          ≡ true
        → IsSettled (record (if b then terminal_patch now p j else open_patch now p j) {
          claude_session_id = owner;
        })
    pick true e t = terminal-IsSettled now p j owner
    pick false e t = absurd (false-ne-true (sym e ∙ t))

-- An operation on the file of a job, with the time that it reads.
pub data Op (date_parse : Text → Option ℕ) : Type 0 where
  write : Job → Op date_parse
  update : (now : Text) → Patch → Op date_parse
  revise :
      (now : Text) (updater : Job → JobResult (Option Patch)) (allow_terminal : Bool)
      → Op date_parse
  finish : (now : Text) → Patch → Op date_parse
  collect : (at : Text) → Op date_parse

abbrev pub or_kept : Stored → JobResult Stored → Stored
or_kept file (ok next) = next
or_kept file (err e) = file

module _ (date_parse : Text → Option ℕ) where
  abbrev pub run_op : Op date_parse → Stored → Stored
  run_op (write j) file = or_kept file (write_job_record_file date_parse j file)
  run_op (update now p) file = (update_job_record_file date_parse now p file).0
  run_op (revise now f allow) file =
      (update_job_record_file_with_current date_parse now f allow file).0
  run_op (finish now p) file = (finish_job_record_file date_parse now p file).0
  run_op (collect at) file = (mark_job_collected_file date_parse at file).0

  unfoldable pub run_ops : List (Op date_parse) → Stored → Stored
  run_ops [] file = file
  run_ops (o ∷ os) file = run_ops os (run_op o file)

  -- What is written as a whole is settled where it has ended.
  abbrev WritesSettled : Op date_parse → Type 0
  WritesSettled (write j) = SettledFile (some j)
  WritesSettled _ = Unit

  written-SettledFile :
      (j next : Job)
      → SettledFile (some j)
      → SettledFile (some next)
      → SettledFile (written j (assert_job_record date_parse next)).0
  unfolding assert_job_record
  written-SettledFile j next s t = elim (Bool-cases (valid_job date_parse next)) [
    | inl y ↦ rw y t
    | inr n ↦ rw n s
  ]

  update-SettledFile :
      (now : Text) (p : Patch) (file : Stored)
      → SettledFile file
      → SettledFile (update_job_record_file date_parse now p file).0
  unfolding update_job_record_file merge_record
  update-SettledFile now p none s = tt
  update-SettledFile now p (some j) s = elim (Bool-cases (is_terminal j)) [
    | inl y ↦ rw y s
    | inr n ↦ rw n (written-SettledFile j (merged now p j) s (merged-IsSettled now p j))
  ]

  collected-SettledFile :
      (at : Text) (j : Job) → SettledFile (some j) → SettledFile (some (collected at j))
  unfolding collected is_terminal
  collected-SettledFile at j s t =
      let k = s t in
      record {
        no_phase = k.no_phase;
        no_process = k.no_process;
        no_codex = k.no_codex;
        no_request = k.no_request;
        has_end = k.has_end;
        cancelled = k.cancelled;
      }

  write-SettledFile :
      (n : Job) (file : Stored)
      → SettledFile (some n)
      → SettledFile file
      → SettledFile (or_kept file (write_job_record_file date_parse n file))
  unfolding write_job_record_file assert_job_record
  write-SettledFile n file w s = go (valid_job date_parse n)
    where
      kept : (f : Stored) → SettledFile f → SettledFile (replaced n f)
      kept none t = w
      kept (some j) t = if-both (λ (x : Job). SettledFile (some x)) (is_terminal j) t w

      go :
          (b : Bool)
          → SettledFile (or_kept file (store file (if b then ok n else err invalid_record)))
      go true = kept file s
      go false = s

  revised-SettledFile :
      (now : Text) (r : JobResult (Option Patch)) (j : Job)
      → SettledFile (some j)
      → SettledFile (revised date_parse now r j).0
  unfolding revised merge_record
  revised-SettledFile now (err e) j s = s
  revised-SettledFile now (ok none) j s = s
  revised-SettledFile now (ok (some p)) j s =
      written-SettledFile j (merged now p j) s (merged-IsSettled now p j)

  run_op-SettledFile :
      (o : Op date_parse) (file : Stored)
      → WritesSettled o
      → SettledFile file
      → SettledFile (run_op o file)
  unfolding update_job_record_file_with_current finish_job_record_file mark_job_collected_file
  run_op-SettledFile (write n) file w s = write-SettledFile n file w s
  run_op-SettledFile (update now p) file w s = update-SettledFile now p file s
  run_op-SettledFile (revise now f allow) none w s = tt
  run_op-SettledFile (revise now f allow) (some j) w s =
      if-both (λ (x : Stored × JobResult Job). SettledFile x.0) (is_terminal j && not allow) s
        (revised-SettledFile now (f j) j s)
  run_op-SettledFile (finish now p) file w s =
      if-both (λ (x : Stored × JobResult Job). SettledFile x.0)
        (has terminal_statuses (or_else p.status [])) (update-SettledFile now p file s) s
  run_op-SettledFile (collect at) none w s =
      if-both (λ (x : Stored × JobResult Job). SettledFile x.0) (is_some (date_parse at)) tt tt
  run_op-SettledFile (collect at) (some j) w s =
      if-both (λ (x : Stored × JobResult Job). SettledFile x.0) (is_some (date_parse at))
        (if-both (λ (x : Stored × JobResult Job). SettledFile x.0)
          (not (is_terminal j) || has_text j.collected_at) s
          (written-SettledFile j (collected at j) s (collected-SettledFile at j s)))
        s

  -- Behind any operations on the file of a job, a record that has ended has no phase, no processes and no
  -- request to cancel, has the time of its end, and is of the failure kind "cancelled" if that is
  -- its status. The condition is that this holds of the file before and of the records that are
  -- written as a whole.
  pub run_ops-SettledFile :
      (os : List (Op date_parse)) (file : Stored)
      → All WritesSettled os
      → SettledFile file
      → SettledFile (run_ops os file)
  unfolding run_ops
  run_ops-SettledFile [] file ws s = s
  run_ops-SettledFile (o ∷ os) file (w, ws) s =
      run_ops-SettledFile os (run_op o file) ws (run_op-SettledFile o file w s)
