-- ===== src/Codex/Tests/Jobs.antt =====
-- The records of Codex jobs (plugins/codex/scripts/lib/state.mjs) at concrete inputs.
use claude_code_fusion.Common.{
  false-ne-true, ℕ, ◌≡◌, refl, sym, ◌∙◌, true, false, Option, none, some, List, [], ◌∷◌, every,
  length,
}
use claude_code_fusion.Common.Text.{Text, codes, text_eq, has}
use claude_code_fusion.Codex.Records.{Job, Patch, ok, valid_id, valid_job, is_terminal}
use claude_code_fusion.Codex.Jobs.{
  has_text, merged, terminal_patch, settled_status, no_changes, acceptance_patch,
  finish_job_record_file,
}
use claude_code_fusion.Codex.Finished.{
  SettledFile, Op, write, update, revise, finish, collect, run_ops, run_ops-SettledFile,
}
use claude_code_fusion.Codex.Final.{run_ops-final}
use claude_code_fusion.Codex.Finishing.{valid_patch, Finished, finish_job_record_file-Finished}

abbrev dates : Text → Option ℕ
dates t = some (length t)

abbrev started : Job
started = record {
  id = codes "a-1";
  status = codes "running";
  phase = some (codes "starting");
  delivery = some (codes "manual");
  delivery_collected_at = none;
  claude_session_id = none;
  pid = some 40;
  pid_identity = none;
  pid_owns_process_group = true;
  codex_pid = some 41;
  codex_pid_identity = none;
  codex_pid_owns_process_group = true;
  updated_at = codes "1";
  finished_at = none;
  collected_at = none;
  failure_kind = none;
  cancel_requested_at = none;
  semantic_status = some (codes "unverified");
  semantic_failure_kind = none;
  semantic_failure_message = none;
  acceptance_source = none;
  acceptance_recorded_at = none;
}

abbrev with_cancel : Job
with_cancel = record started { cancel_requested_at = some (codes "2") }

abbrev finishing : Patch
finishing = record no_changes { status = some (codes "done"); failure_kind = some none }

abbrev ended : Job
ended = merged (codes "3") finishing started

abbrev course : List (Op dates)
course =
    write started
    ∷ update (codes "2") (record no_changes { cancel_requested_at = some (some (codes "2")) })
    ∷ finish (codes "3") finishing
    ∷ collect (codes "4")
    ∷ revise (codes "5")
        (acceptance_patch (codes "5") (codes "accepted") (codes "stats") none none true) true
    ∷ []

started-running : is_terminal started ≡ false
unfolding is_terminal has text_eq
started-running = refl

run_ops-SettledFile_example : SettledFile (run_ops dates course none)
run_ops-SettledFile_example =
    run_ops-SettledFile dates course none
      ((λ t. absurd (false-ne-true (sym started-running ∙ t))), (tt, (tt, (tt, (tt, tt))))) tt

run_ops-final_example :
    ((at : Option Text) × (delivered : Option Text) × (run_ops dates
          (collect (codes "4") ∷ update (codes "5") finishing ∷ [])
          (some ended)
        ≡ some (record ended { collected_at = at; delivery_collected_at = delivered })))
    × (has_text ended.collected_at ≡ true
        → run_ops dates (collect (codes "4") ∷ update (codes "5") finishing ∷ []) (some ended)
          ≡ some ended)
unfolding is_terminal has text_eq merged terminal_patch settled_status
run_ops-final_example =
    run_ops-final dates (collect (codes "4") ∷ update (codes "5") finishing ∷ []) ended
      (tt, (tt, tt)) refl

finish_job_record_file-Finished_example :
    (next : Job) × (finish_job_record_file dates (codes "3") finishing (some with_cancel)
      ≡ (some next, ok next))
    × Finished dates with_cancel finishing next
unfolding is_terminal has text_eq valid_job valid_id every valid_patch
finish_job_record_file-Finished_example =
    finish_job_record_file-Finished dates (codes "3") finishing with_cancel refl refl refl refl
