-- ===== src/Codex/Jobs.antt =====
-- plugins/codex/scripts/lib/state.mjs: the operations on the file of a Codex job.
use claude_code_fusion.Common.{
  ℕ, Bool, false, not, ◌&&◌, ◌||◌, Option, none, some, [], ltb, if◌then◌else◌, or_else, is_some,
  length,
}
use claude_code_fusion.Common.Text.{Text, codes, text_eq, has}
use claude_code_fusion.Codex.Records.{
  terminal_statuses, Job, Patch, JobResult, either, flat, is_terminal, owner_session_id,
  assert_job_record, no_record, terminal_required, bad_timestamp, failed_transport, ok, err,
}

-- `{ ...existing, ...patch }`.
unfoldable pub spread : Patch → Job → Job
spread p j = record j {
  status = or_else p.status j.status;
  phase = or_else p.phase j.phase;
  claude_session_id = or_else p.claude_session_id j.claude_session_id;
  pid = or_else p.pid j.pid;
  pid_identity = or_else p.pid_identity j.pid_identity;
  pid_owns_process_group = or_else p.pid_owns_process_group j.pid_owns_process_group;
  codex_pid = or_else p.codex_pid j.codex_pid;
  codex_pid_identity = or_else p.codex_pid_identity j.codex_pid_identity;
  codex_pid_owns_process_group =
      or_else p.codex_pid_owns_process_group j.codex_pid_owns_process_group;
  updated_at = or_else p.updated_at j.updated_at;
  finished_at = or_else p.finished_at j.finished_at;
  failure_kind = or_else p.failure_kind j.failure_kind;
  cancel_requested_at = or_else p.cancel_requested_at j.cancel_requested_at;
  semantic_status = or_else p.semantic_status j.semantic_status;
  semantic_failure_kind = or_else p.semantic_failure_kind j.semantic_failure_kind;
  semantic_failure_message = or_else p.semantic_failure_message j.semantic_failure_message;
  acceptance_source = or_else p.acceptance_source j.acceptance_source;
  acceptance_recorded_at = or_else p.acceptance_recorded_at j.acceptance_recorded_at;
}

-- The status that `terminalPatch` settles on.
unfoldable pub settled_status : Patch → Job → Text
settled_status p j =
    let asked = or_else p.status j.status in
    if is_some j.cancel_requested_at || text_eq asked (codes "cancelled")
    then codes "cancelled"
    else asked

unfoldable pub terminal_patch : Text → Patch → Job → Job
terminal_patch now p j = record (spread p j) {
  status = settled_status p j;
  phase = none;
  pid = none;
  pid_identity = none;
  pid_owns_process_group = false;
  codex_pid = none;
  codex_pid_identity = none;
  codex_pid_owns_process_group = false;
  finished_at = either j.finished_at (some (or_else (flat p.finished_at) now));
  updated_at = or_else p.updated_at now;
  acceptance_source = either (flat p.acceptance_source) j.acceptance_source;
  acceptance_recorded_at = either (flat p.acceptance_recorded_at) j.acceptance_recorded_at;
  failure_kind =
      if text_eq (settled_status p j) (codes "cancelled")
      then some (codes "cancelled")
      else either (flat p.failure_kind) j.failure_kind;
  cancel_requested_at = none;
}

unfoldable pub open_patch : Text → Patch → Job → Job
open_patch now p j = record (spread p j) { updated_at = or_else p.updated_at now }

unfoldable pub merged : Text → Patch → Job → Job
merged now p j =
    let next =
      if has terminal_statuses (or_else p.status j.status)
      then terminal_patch now p j
      else open_patch now p j in
    record next {
      claude_session_id = owner_session_id (or_else p.claude_session_id j.claude_session_id);
    }

unfoldable pub collected : Text → Job → Job
collected at j = record j {
  collected_at = some at;
  delivery_collected_at =
      if text_eq (or_else j.delivery []) (codes "foreground")
      then j.delivery_collected_at
      else either j.delivery_collected_at (some at);
}

abbrev pub has_text : Option Text → Bool
has_text none = false
has_text (some t) = ltb 0 (length t)

-- What stands in the file of a job, if a record does.
abbrev pub Stored : Type 0
Stored = Option Job

-- A result that is an error writes nothing.
abbrev pub written : Job → JobResult Job → Stored × JobResult Job
written j (ok next) = (some next, ok next)
written j (err e) = (some j, err e)

-- A record that has ended is not replaced.
abbrev pub replaced : Job → Stored → Stored
replaced next none = some next
replaced next (some j) = some (if is_terminal j then j else next)

abbrev pub store : Stored → JobResult Job → JobResult Stored
store file (ok next) = ok (replaced next file)
store file (err e) = err e

module _ (date_parse : Text → Option ℕ) where
  unfoldable pub merge_record : Text → Patch → Job → JobResult Job
  merge_record now p j = assert_job_record date_parse (merged now p j)

  unfoldable pub write_job_record_file : Job → Stored → JobResult Stored
  write_job_record_file next file = store file (assert_job_record date_parse next)

  unfoldable pub update_job_record_file : Text → Patch → Stored → Stored × JobResult Job
  update_job_record_file now p none = (none, err no_record)
  update_job_record_file now p (some j) =
      if is_terminal j then (some j, ok j) else written j (merge_record now p j)

  -- What the updater gives: an error that it throws, no patch, or a patch.
  abbrev Updater : Type 0
  Updater = Job → JobResult (Option Patch)

  unfoldable pub revised : Text → JobResult (Option Patch) → Job → Stored × JobResult Job
  revised now (err e) j = (some j, err e)
  revised now (ok none) j = (some j, ok j)
  revised now (ok (some p)) j = written j (merge_record now p j)

  unfoldable pub update_job_record_file_with_current :
      Text → Updater → Bool → Stored → Stored × JobResult Job
  update_job_record_file_with_current now updater allow_terminal none = (none, err no_record)
  update_job_record_file_with_current now updater allow_terminal (some j) =
      if is_terminal j && not allow_terminal then (some j, ok j) else revised now (updater j) j

  unfoldable pub finish_job_record_file : Text → Patch → Stored → Stored × JobResult Job
  finish_job_record_file now p file =
      if has terminal_statuses (or_else p.status [])
      then update_job_record_file now p file
      else (file, err terminal_required)

  unfoldable pub mark_job_collected_file : Text → Stored → Stored × JobResult Job
  mark_job_collected_file at file =
      if is_some (date_parse at)
      then elim file [
        | none ↦ (none, err no_record)
        | some j ↦
            if not (is_terminal j) || has_text j.collected_at
            then (some j, ok j)
            else written j (assert_job_record date_parse (collected at j))
      ]
      else (file, err bad_timestamp)

-- plugins/codex/scripts/codex-companion.mjs: the updater that records an acceptance.
abbrev pub no_changes : Patch
no_changes = record {
  status = none;
  phase = none;
  claude_session_id = none;
  pid = none;
  pid_identity = none;
  pid_owns_process_group = none;
  codex_pid = none;
  codex_pid_identity = none;
  codex_pid_owns_process_group = none;
  updated_at = none;
  finished_at = none;
  failure_kind = none;
  cancel_requested_at = none;
  semantic_status = none;
  semantic_failure_kind = none;
  semantic_failure_message = none;
  acceptance_source = none;
  acceptance_recorded_at = none;
}

unfoldable pub acceptance_patch :
    Text → Text → Text → Option Text → Option Text → Bool → Job → JobResult (Option Patch)
acceptance_patch now acceptance source failure_kind reason accept_failed j =
    if text_eq acceptance (codes "accepted")
      && (not (text_eq j.status (codes "done")) && not accept_failed)
    then err (failed_transport j.status)
    else let rejected = not (not (text_eq acceptance (codes "rejected"))) in
      ok (
        some (record no_changes {
          acceptance_recorded_at = some (some now);
          acceptance_source = some (some source);
          semantic_failure_kind = some (if rejected then failure_kind else none);
          semantic_failure_message = some (if rejected then reason else none);
          semantic_status = some (some acceptance);
        }))
