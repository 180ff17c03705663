-- ===== src/Codex/Tests/History.antt =====
-- The pruning of the history of Codex jobs (plugins/codex/scripts/lib/state.mjs) at concrete inputs.
use claude_code_fusion.Common.{ℕ, ◌≡◌, refl, true, false, some, List, [], ◌∷◌}
use claude_code_fusion.Common.Text.{Text, codes, text_eq, has}
use claude_code_fusion.Codex.History.{
  Entry, Quota, Tier, Found, has_ended, refuses, delete_managed_job_entry, insert_entry,
  candidates_of, within_heavy, heavy_taken, heavy_step, heavy_sweep, is_young, light_step,
  light_sweep, counted, pruned_artifacts, prune_job_state,
}

abbrev job : Text → ℕ → Entry
job name at = record {
  key = name;
  file = name;
  status = codes "done";
  background = false;
  is_collected = false;
  artifacts_pruned = false;
  updated_at = codes "1";
  bytes = 30;
  artifact_bytes = 20;
  timestamp = at;
}

abbrev history : List Entry
history =
    job (codes "b") 7
    ∷ job (codes "a") 5
    ∷ record (job (codes "c") 3) { status = codes "running" }
    ∷ []

abbrev quota : Quota
quota = record {
  max_bytes = 45;
  max_records = 9;
  record_max_records = 9;
  record_retention_days = 0;
}

abbrev as_scanned : Tier → Entry → Found
as_scanned tier e = record { refreshed = some e; current_keys = []; unlinked = true }

-- The oldest job that has ended loses its artifacts, and no record is deleted.
pruned_test :
    ((pruned_artifacts (λ _ _. true) quota [] as_scanned history).pruned_keys ≡ codes "a" ∷ [])
    × ((prune_job_state (λ _ _. true) quota [] as_scanned 9 history).after_bytes ≡ 40)
unfolding pruned_artifacts prune_job_state heavy_sweep light_sweep heavy_step light_step
    candidates_of insert_entry has_ended has text_eq delete_managed_job_entry refuses within_heavy
    heavy_taken counted is_young
pruned_test = (refl, refl)
