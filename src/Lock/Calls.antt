-- ===== src/Lock/Calls.antt =====
-- shared/companion/record-lock.mjs: a call of withRecordLock, one access of the disk or of the process
-- table at a time.
use claude_code_fusion.Common.{
  ℕ, ◌≡◌, Bool, true, false, ◌&&◌, ◌||◌, not, Option, none, some, List, any,
}
use mathlib.Core.Logic.{ite}
use claude_code_fusion.Lock.Identity.{Table, Owner, valid_owner, lock_owner_was_replaced}
use claude_code_fusion.Lock.Disk.{
  Claim, Claim-discrete, Slot, Disk, lock_targets_token, slot_targets_token, read_lock_record,
  link_lock, unlink_lock, put_owner, drop_owner, mark_released, set_slot, set_claimer,
}

-- Which of the three calls of `publishPreparedLock` is next.
pub data Offer : Type 0 where
  first : Offer
  retaken : Offer
  slept : Offer

-- How `reclaimReplacedLock` ends: without the lock, with an error of the disk, with the lock gone already,
-- with the lock removed.
pub data Outcome : Type 0 where
  lost : Outcome
  thrown : Outcome
  missing : Outcome
  removed : Outcome

-- Where a call stands, with the variables that are live there.
pub data Pc : Type 0 where
  outside : Pc
  arriving : (swept : Option ℕ) → Pc  -- the first `scavengeOrphanOwnerDirs`
  offering : Offer → Pc  -- before `publishPreparedLock`
  waiting : Pc  -- head of the loop in `withRecordLock`
  pausing : Pc  -- the test of the deadline
  observing : (t : ℕ) (o : Owner) → Pc  -- start of `reclaimReplacedLock`
  targeting : (t : ℕ) → Pc  -- start of `acquireReaperClaim`
  walking : (s : Slot) (seen : List Claim) → Pc  -- head of its loop
  looking : (s : Slot) (seen : List Claim) → Pc
  unlisted : (s : Slot) (seen : List Claim) → Pc  -- no record in the slot
  placing : (s : Slot) (seen : List Claim) → Pc
  linking : (s : Slot) (seen : List Claim) (c : Claim) → Pc
  confirming : (s : Slot) (c : Claim) → Pc
  found : (s : Slot) (seen : List Claim) (c : Claim) (o : Owner) → Pc  -- a record in the slot
  matching : (s : Slot) (seen : List Claim) (c : Claim) (o : Owner) → Pc
  judging : (s : Slot) (seen : List Claim) (c : Claim) (o : Owner) → Pc
  claimed : (s : Slot) (c : Claim) → Pc  -- back in `reclaimReplacedLock`
  weighing : (s : Slot) (c : Claim) (o : Owner) → Pc
  weighed : (s : Slot) (c : Claim) (o : Owner) → Pc
  poised : (s : Slot) (c : Claim) → Pc  -- before the lock is unlinked
  reaped : (s : Slot) (c : Claim) → Pc
  dropping : Outcome → (s : Slot) (c : Claim) → Pc  -- `releaseLock` of the claim
  unhooking : Outcome → (s : Slot) (c : Claim) → Pc
  dropped : Outcome → (s : Slot) (c : Claim) → Pc
  cleaning : (t : ℕ) → Pc  -- `cleanupReaperClaims`
  inside : Pc  -- the callback
  releasing : Pc  -- `releaseLock` of the lock
  unlocking : Pc
  unlocked : Pc
  failing : Pc  -- timed out, or an error of the disk
  leaving : (swept : Option ℕ) → Pc  -- the last `scavengeOrphanOwnerDirs`
  done : Pc

unfoldable pub refused : Offer → Pc
refused first = waiting
refused retaken = pausing
refused slept = waiting

unfoldable pub ended : Outcome → ℕ → Pc
ended lost t = pausing
ended thrown t = failing
ended missing t = offering retaken
ended removed t = cleaning t

-- The directories that a sweep takes: not linked, old, and released or of an owner that is replaced.
unfoldable pub scavenged : Table → Bool → Bool → Bool → Disk → ℕ → Bool
unfolding lock_targets_token
scavenged table r1 r2 old d t =
    not (lock_targets_token d t)
    && (old
        && (d.released t || elim (d.owners t) [
          | none ↦ false
          | some o ↦ valid_owner o && lock_owner_was_replaced table r1 r2 o
        ]))

unfoldable pub seen_before : Claim → List Claim → Bool
seen_before c = any (λ x. ite (Claim-discrete c x) true false)

-- The steps of `withRecordLock` itself, for call `i`, whose process is `mine`. `r1` and `r2` say which readings
-- of an identity succeed.
pub data Wait (table : Table) (i : ℕ) (mine : Owner) (d : Disk) : Pc → Disk → Pc → Type 0 where
  begins : valid_owner mine ≡ true → Wait table i mine d outside d (arriving none)
  sweeps_first :
      {t : ℕ} (r1 r2 old : Bool)
      → scavenged table r1 r2 old d t ≡ true
      → Wait table i mine d (arriving none) d (arriving (some t))
  swept_first : {t : ℕ} → Wait table i mine d (arriving (some t)) (drop_owner t d) (arriving none)
  prepares : Wait table i mine d (arriving none) (put_owner i mine d) (offering first)
  publishes : {o : Offer} → d.lock ≡ none → Wait table i mine d (offering o) (link_lock i d) inside
  finds_taken :
      {o : Offer} {t : ℕ} → d.lock ≡ some t → Wait table i mine d (offering o) d (refused o)
  times_out : Wait table i mine d pausing d failing
  sleeps : Wait table i mine d pausing d (offering slept)
  reads_nothing : read_lock_record d ≡ none → Wait table i mine d waiting d pausing
  reads_record :
      {t : ℕ} {o : Owner}
      → read_lock_record d ≡ some (t, o)
      → Wait table i mine d waiting d (observing t o)
  gives_up : Wait table i mine d failing (drop_owner i d) (leaving none)
  sweeps_last :
      {t : ℕ} (r1 r2 old : Bool)
      → scavenged table r1 r2 old d t ≡ true
      → Wait table i mine d (leaving none) d (leaving (some t))
  swept_last : {t : ℕ} → Wait table i mine d (leaving (some t)) (drop_owner t d) (leaving none)
  leaves : Wait table i mine d (leaving none) d done

-- The steps of `releaseLock`, for a claim and for the lock.
pub data Release (table : Table) (i : ℕ) (mine : Owner) (d : Disk) : Pc → Disk → Pc → Type 0 where
  drop_lost :
      {e : Outcome} {s : Slot} {c : Claim}
      → slot_targets_token d s c ≡ false
      → Release table i mine d (dropping e s c) (set_claimer s c none d) (ended e s.target)
  drop_kept :
      {e : Outcome} {s : Slot} {c : Claim}
      → slot_targets_token d s c ≡ true
      → Release table i mine d (dropping e s c) d (unhooking e s c)
  unhooks :
      {e : Outcome} {s : Slot} {c x : Claim}
      → d.slots s ≡ some x
      → Release table i mine d (unhooking e s c) (set_slot s none d) (dropped e s c)
  unhook_missing :
      {e : Outcome} {s : Slot} {c : Claim}
      → d.slots s ≡ none
      → Release table i mine d (unhooking e s c) d (ended e s.target)
  drops :
      {e : Outcome} {s : Slot} {c : Claim}
      → Release table i mine d (dropped e s c) (set_claimer s c none d) (ended e s.target)
  returns : Release table i mine d inside (mark_released i d) releasing
  release_lost :
      lock_targets_token d i ≡ false
      → Release table i mine d releasing (drop_owner i d) (leaving none)
  release_kept : lock_targets_token d i ≡ true → Release table i mine d releasing d unlocking
  unlocks : {t : ℕ} → d.lock ≡ some t → Release table i mine d unlocking (unlink_lock d) unlocked
  unlock_missing : d.lock ≡ none → Release table i mine d unlocking d (leaving none)
  discards : Release table i mine d unlocked (drop_owner i d) (leaving none)
