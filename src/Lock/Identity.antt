-- ===== src/Lock/Identity.antt =====
-- shared/companion/process-identity.mjs: the identity of a process, and lockOwnerWasReplaced of
-- shared/companion/record-lock.mjs, which judges by it whether the owner of a lock is gone.
use claude_code_fusion.Common.{
  ℕ, ◌≡◌, refl, sym, ◌∙◌, Bool, true, false, not, ◌&&◌, Option, none, some, arith, ltb, ◌==◌,
  if◌then◌else◌, is_some, length, &&-eq-true,
}
use claude_code_fusion.Common.Text.{Text, text_eq, text_eq_refl}

pub record Identity : Type 0 where
  pub version : ℕ
  pub platform : Text
  pub boot_marker : Text
  pub start_marker : Text
  pub command_hash : Text

abbrev filled : Text → Bool
filled t = ltb 0 (length t)

unfoldable pub valid_process_identity : Identity → Bool
valid_process_identity p =
    p.version == 1
    && (filled p.platform
        && (filled p.boot_marker && (filled p.start_marker && filled p.command_hash)))

-- The processes that run: which identity has the one with a number, if there is one.
abbrev pub Table : Type 0
Table = ℕ → Option Identity

unfoldable pub process_is_directly_alive : Table → ℕ → Bool
process_is_directly_alive table pid = ltb 1 pid && is_some (table pid)

-- The identity of a running process is sometimes not readable.
unfoldable pub get_process_identity : Table → Bool → ℕ → Option Identity
unfolding process_is_directly_alive
get_process_identity table readable pid =
    if process_is_directly_alive table pid && readable then table pid else none

unfoldable pub process_identities_match : Option Identity → Identity → Bool
process_identities_match none expected = false
process_identities_match (some current) expected =
    valid_process_identity current
    && (valid_process_identity expected
        && (current.version == expected.version
            && (text_eq current.platform expected.platform
                && (text_eq current.boot_marker expected.boot_marker
                    && (text_eq current.start_marker expected.start_marker
                        && text_eq current.command_hash expected.command_hash)))))

unfoldable pub process_identity_matches : Table → Bool → ℕ → Identity → Bool
process_identity_matches table readable pid expected =
    process_identities_match (get_process_identity table readable pid) expected

-- The process that a record names as its owner.
pub record Owner : Type 0 where
  pub pid : ℕ
  pub identity : Identity

-- What `validLockRecord` asks of the owner.
unfoldable pub valid_owner : Owner → Bool
valid_owner o = ltb 1 o.pid && valid_process_identity o.identity

-- The two readings of the owner's identity are readable or not on their own.
unfoldable pub lock_owner_was_replaced : Table → Bool → Bool → Owner → Bool
lock_owner_was_replaced table first second o =
    if process_identity_matches table first o.pid o.identity
    then false
    else elim (get_process_identity table second o.pid) [
      | some current ↦ not (process_identities_match (some current) o.identity)
      | none ↦ not (process_is_directly_alive table o.pid)
    ]

abbrev pub Runs : Table → Owner → Type 0
Runs table o = table o.pid ≡ some o.identity

identities_match_self :
    (p : Identity) → valid_process_identity p ≡ true → process_identities_match (some p) p ≡ true
unfolding process_identities_match
identities_match_self p v = ground (
  arith,
  v,
  text_eq_refl p.platform,
  text_eq_refl p.boot_marker,
  text_eq_refl p.start_marker,
  text_eq_refl p.command_hash,
)

-- A running owner is read as itself, or not at all.
identity_of_running :
    (table : Table) (o : Owner) (readable : Bool)
    → ltb 1 o.pid ≡ true
    → Runs table o
    → get_process_identity table readable o.pid ≡ (if readable then some o.identity else none)
unfolding get_process_identity process_is_directly_alive
identity_of_running table o true above r = rw (above, r) refl
identity_of_running table o false above r = rw (above, r) refl

running-not_replaced :
    (table : Table) (first second : Bool) (o : Owner)
    → valid_owner o ≡ true
    → Runs table o
    → lock_owner_was_replaced table first second o ≡ false
unfolding lock_owner_was_replaced process_identity_matches valid_owner process_is_directly_alive
running-not_replaced table true second o v r =
    let (above, whole) = &&-eq-true {a = ltb 1 o.pid} {b = valid_process_identity o.identity} v in
    rw (identity_of_running table o true above r, identities_match_self o.identity whole) refl
running-not_replaced table false true o v r =
    let (above, whole) = &&-eq-true {a = ltb 1 o.pid} {b = valid_process_identity o.identity} v in
    ground (
      arith,
      identity_of_running table o true above r,
      identity_of_running table o false above r,
      identities_match_self o.identity whole,
    )
running-not_replaced table false false o v r =
    let (above, whole) = &&-eq-true {a = ltb 1 o.pid} {b = valid_process_identity o.identity} v in
    ground (arith, above, r, identity_of_running table o false above r)

-- An owner that is judged replaced does not run, whatever was readable.
pub replaced-gone :
    (table : Table) (first second : Bool) (o : Owner)
    → valid_owner o ≡ true
    → lock_owner_was_replaced table first second o ≡ true
    → Runs table o
    → false ≡ true
replaced-gone table first second o v replaced r =
    sym (running-not_replaced table first second o v r) ∙ replaced
