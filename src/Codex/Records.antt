-- ===== src/Codex/Records.antt =====
-- plugins/codex/scripts/lib/state.mjs: the stored record of a Codex job, a patch of it, and what a valid record is.
use claude_code_fusion.Common.{
  ℕ, Bool, true, false, ◌&&◌, ◌||◌, Option, none, some, List, [], ◌∷◌, leb, ◌==◌, if◌then◌else◌,
  is_some, every, length,
}
use claude_code_fusion.Common.Text.{Text, codes, has, trim, is_blank}
use claude_code_fusion.Lock.Identity.{Identity}

abbrev pub terminal_statuses : List Text
terminal_statuses = codes "done" ∷ codes "error" ∷ codes "cancelled" ∷ []

abbrev pub job_statuses : List Text
job_statuses = codes "running" ∷ terminal_statuses

abbrev pub delivery_modes : List Text
delivery_modes = codes "foreground" ∷ codes "manual" ∷ codes "managed" ∷ []

abbrev pub semantic_statuses : List Text
semantic_statuses = codes "accepted" ∷ codes "rejected" ∷ codes "unverified" ∷ []

abbrev pub job_failure_kinds : List Text
job_failure_kinds =
    codes "policy"
    ∷ codes "intent_override"
    ∷ codes "scope_rewrite"
    ∷ codes "wrong_approach"
    ∷ codes "style_mismatch"
    ∷ codes "oversized"
    ∷ []

abbrev pub acceptance_sources : List Text
acceptance_sources = codes "collector" ∷ codes "main-loop" ∷ codes "stats" ∷ []

-- The properties that the operations read or write; one that is missing or null is `none`.
pub record Job : Type 0 where
  pub id : Text
  pub status : Text
  pub phase : Option Text
  pub delivery : Option Text
  pub delivery_collected_at : Option Text
  pub claude_session_id : Option Text
  pub pid : Option ℕ
  pub pid_identity : Option Identity
  pub pid_owns_process_group : Bool
  pub codex_pid : Option ℕ
  pub codex_pid_identity : Option Identity
  pub codex_pid_owns_process_group : Bool
  pub updated_at : Text
  pub finished_at : Option Text
  pub collected_at : Option Text
  pub failure_kind : Option Text
  pub cancel_requested_at : Option Text
  pub semantic_status : Option Text
  pub semantic_failure_kind : Option Text
  pub semantic_failure_message : Option Text
  pub acceptance_source : Option Text
  pub acceptance_recorded_at : Option Text

-- The properties that a patch has; a property that is set to null is `some none`.
pub record Patch : Type 0 where
  pub status : Option Text
  pub phase : Option (Option Text)
  pub claude_session_id : Option (Option Text)
  pub pid : Option (Option ℕ)
  pub pid_identity : Option (Option Identity)
  pub pid_owns_process_group : Option Bool
  pub codex_pid : Option (Option ℕ)
  pub codex_pid_identity : Option (Option Identity)
  pub codex_pid_owns_process_group : Option Bool
  pub updated_at : Option Text
  pub finished_at : Option (Option Text)
  pub failure_kind : Option (Option Text)
  pub cancel_requested_at : Option (Option Text)
  pub semantic_status : Option (Option Text)
  pub semantic_failure_kind : Option (Option Text)
  pub semantic_failure_message : Option (Option Text)
  pub acceptance_source : Option (Option Text)
  pub acceptance_recorded_at : Option (Option Text)

pub data JobError : Type 0 where
  no_record : JobError
  invalid_record : JobError
  terminal_required : JobError
  bad_timestamp : JobError
  failed_transport : (status : Text) → JobError

pub data JobResult {ℓ} (A : Type ℓ) : Type ℓ where
  ok : A → JobResult A
  err : JobError → JobResult A

-- `??` between two nullable values.
abbrev pub either {ℓ} : {A : Type ℓ} → Option A → Option A → Option A
either (some a) b = some a
either none b = b

abbrev pub flat {ℓ} : {A : Type ℓ} → Option (Option A) → Option A
flat none = none
flat (some o) = o

abbrev pub passes {ℓ} : {A : Type ℓ} → (A → Bool) → Option A → Bool
passes p none = true
passes p (some a) = p a

unfoldable pub is_terminal : Job → Bool
is_terminal j = has terminal_statuses j.status

abbrev is_id_head : ℕ → Bool
is_id_head c = leb 48 c && leb c 57 || (leb 65 c && leb c 90 || leb 97 c && leb c 122)

-- `JOB_ID_PATTERN`.
unfoldable pub valid_id : Text → Bool
valid_id [] = false
valid_id (c ∷ cs) =
    is_id_head c
    && (leb (length cs) 127 && every (λ x. is_id_head x || (x == 46 || (x == 95 || x == 45))) cs)

-- `ownerSessionId`.
unfoldable pub owner_session_id : Option Text → Option Text
owner_session_id none = none
owner_session_id (some t) = if is_blank t then none else some (trim t)

module _ (date_parse : Text → Option ℕ) where
  abbrev pub is_date : Text → Bool
  is_date t = is_some (date_parse t)

  -- What `assertJobRecord` asks of the properties of `Job`. Those that `Job` does not have are not asked for:
  -- the time limit, the version of the companion, the schema and the engine.
  unfoldable pub valid_job : Job → Bool
  valid_job j =
      valid_id j.id
      && (has job_statuses j.status
          && (passes (has delivery_modes) j.delivery
              && (passes (has semantic_statuses) j.semantic_status
                  && (passes (has job_failure_kinds) j.semantic_failure_kind
                      && (passes (has acceptance_sources) j.acceptance_source
                          && passes is_date j.acceptance_recorded_at)))))

  unfoldable pub assert_job_record : Job → JobResult Job
  assert_job_record j = if valid_job j then ok j else err invalid_record
