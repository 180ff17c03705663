-- ===== src/Codex/History.antt =====
-- plugins/codex/scripts/lib/state.mjs: which Codex jobs pruneJobState takes out of the history.
use claude_code_fusion.Common.{
  ℕ, ◌+◌, ◌-◌, ◌*◌, Bool, not, ◌&&◌, ◌||◌, Option, none, some, List, [], ◌∷◌, ltb, leb, ◌==◌,
  if◌then◌else◌, length, keep,
}
use claude_code_fusion.Common.Text.{Text, text_eq, has}
use claude_code_fusion.Codex.Records.{terminal_statuses}

-- A job of the history, as `readManagedJobEntry` reads it. Its key has its workspace and its id.
pub record Entry : Type 0 where
  pub key : Text
  pub file : Text
  pub status : Text
  pub background : Bool
  pub is_collected : Bool
  pub artifacts_pruned : Bool
  pub updated_at : Text
  pub bytes : ℕ
  pub artifact_bytes : ℕ
  pub timestamp : ℕ

pub record Quota : Type 0 where
  pub max_bytes : ℕ
  pub max_records : ℕ
  pub record_max_records : ℕ
  pub record_retention_days : ℕ

pub data Tier : Type 0 where
  heavy : Tier
  light : Tier

-- What `deleteManagedJobEntry` finds under the lock of the job: its entry read again, the keys that are
-- protected now, and whether its files can be unlinked.
pub record Found : Type 0 where
  pub refreshed : Option Entry
  pub current_keys : List Text
  pub unlinked : Bool

unfoldable pub has_ended : Entry → Bool
has_ended e = has terminal_statuses e.status

unfoldable pub refuses : Tier → List Text → List Text → Entry → Entry → Bool
refuses tier snapshot current e r =
    not (has_ended r)
    || (r.background && not r.is_collected
        || (has snapshot r.key || has current r.key || elim tier [
          | heavy ↦ r.artifacts_pruned
          | light ↦ not (text_eq r.updated_at e.updated_at)
        ]))

-- The bytes that go, if the entry is taken out.
unfoldable pub delete_managed_job_entry : Tier → List Text → Entry → Found → Option ℕ
delete_managed_job_entry tier snapshot e f = elim f.refreshed [
  | none ↦ none
  | some r ↦
      if refuses tier snapshot f.current_keys e r || not f.unlinked
      then none
      else some (elim tier [ heavy ↦ r.artifact_bytes | light ↦ r.bytes ])
]

-- The counts of `pruneJobState`.
pub record Sweep : Type 0 where
  pub after_bytes : ℕ
  pub after_records : ℕ
  pub after_light_records : ℕ
  pub deleted_bytes : ℕ
  pub deleted_records : ℕ
  pub pruned_keys : List Text

-- Candidates in the order of their age. Of two files, `before` says that `localeCompare` puts the second one
-- not in front of the first.
module _ (before : Text → Text → Bool) where
  unfoldable pub insert_entry : Entry → List Entry → List Entry
  insert_entry e [] = e ∷ []
  insert_entry e (x ∷ xs) =
      let rest = x ∷ insert_entry e xs in
      if ltb e.timestamp x.timestamp || e.timestamp == x.timestamp && before e.file x.file
      then e ∷ x ∷ xs
      else rest

  unfoldable pub candidates_of : List Text → List Entry → List Entry
  candidates_of protected [] = []
  candidates_of protected (e ∷ es) =
      let rest = candidates_of protected es in
      if has_ended e && not (has protected e.key) then insert_entry e rest else rest

unfoldable pub within_heavy : Quota → Sweep → Bool
within_heavy q w = leb w.after_records q.max_records && leb w.after_bytes q.max_bytes

unfoldable pub heavy_taken : Entry → ℕ → Sweep → Sweep
heavy_taken e n w = record w {
  after_records = w.after_records - 1;
  after_bytes = w.after_bytes - n;
  deleted_bytes = w.deleted_bytes + n;
  pruned_keys = e.key ∷ w.pruned_keys;
}

unfoldable pub light_taken : Entry → ℕ → Sweep → Sweep
light_taken e n w =
    let first = not e.artifacts_pruned && not (has w.pruned_keys e.key) in
    record w {
      after_light_records = w.after_light_records - 1;
      deleted_records = w.deleted_records + 1;
      deleted_bytes = w.deleted_bytes + n;
      after_records = if first then w.after_records - 1 else w.after_records;
      after_bytes = if first then w.after_bytes - e.artifact_bytes else w.after_bytes;
    }

abbrev pub heavy_try : Entry → Option ℕ → Sweep → Sweep
heavy_try e none w = w
heavy_try e (some n) w = heavy_taken e n w

abbrev pub light_try : Entry → Option ℕ → Sweep → Sweep
light_try e none w = w
light_try e (some n) w = light_taken e n w

module _ (q : Quota) where
  -- An entry is young where `timestamp >= cutoff`, with the cutoff written as a sum.
  unfoldable pub is_young : ℕ → Entry → Bool
  is_young now e = leb now (e.timestamp + q.record_retention_days * 86400000)

  unfoldable pub quota_satisfied : Sweep → Bool
  quota_satisfied w = within_heavy q w && leb w.after_light_records q.record_max_records

-- `found` is what the lock of each job shows when its turn comes.
module _ (q : Quota) (snapshot : List Text) (found : Tier → Entry → Found) where
  abbrev pub removes : Tier → Entry → Option ℕ
  removes tier e = delete_managed_job_entry tier snapshot e (found tier e)

  unfoldable pub heavy_step : Entry → Sweep → Sweep
  heavy_step e w = if e.artifacts_pruned then w else heavy_try e (removes heavy e) w

  unfoldable pub heavy_sweep : List Entry → Sweep → Sweep
  heavy_sweep [] w = w
  heavy_sweep (e ∷ es) w =
      let rest = heavy_sweep es (heavy_step e w) in if within_heavy q w then w else rest

  unfoldable pub light_step : ℕ → Entry → Sweep → Sweep
  light_step now e w =
      if leb w.after_light_records q.record_max_records && is_young q now e
      then w
      else light_try e (removes light e) w

  unfoldable pub light_sweep : ℕ → List Entry → Sweep → Sweep
  light_sweep now [] w = w
  light_sweep now (e ∷ es) w =
      let rest = light_sweep now es (light_step now e w) in
      if leb w.after_light_records q.record_max_records
        && (q.record_retention_days == 0 || is_young q now e)
      then w
      else rest

artifact_total : List Entry → ℕ
artifact_total [] = 0
artifact_total (e ∷ es) = e.artifact_bytes + artifact_total es

-- The counts before the loops.
unfoldable pub counted : List Entry → Sweep
unfolding artifact_total
counted es = record {
  after_bytes = artifact_total es;
  after_records = length (keep (λ (e : Entry). not e.artifacts_pruned) es);
  after_light_records = length es;
  deleted_bytes = 0;
  deleted_records = 0;
  pruned_keys = [];
}

-- The two loops of `pruneJobState`, over what a scan found, and the counts behind the first one.
module _ (before : Text → Text → Bool) (q : Quota) (snapshot : List Text)
    (found : Tier → Entry → Found) where
  unfoldable pub pruned_artifacts : List Entry → Sweep
  pruned_artifacts es = heavy_sweep q snapshot found (candidates_of before snapshot es) (counted es)

  unfoldable pub prune_job_state : ℕ → List Entry → Sweep
  prune_job_state now es =
      light_sweep q snapshot found now (candidates_of before snapshot es) (pruned_artifacts es)
