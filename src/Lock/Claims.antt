-- ===== src/Lock/Claims.antt =====
-- shared/companion/record-lock.mjs: how a call claims the lock of a process that is gone, and removes it.
use claude_code_fusion.Common.{ℕ, ◌≡◌, ◌≢◌, Bool, true, false, none, some, List, [], ◌∷◌}
use claude_code_fusion.Lock.Identity.{Table, Owner, lock_owner_was_replaced}
use claude_code_fusion.Lock.Disk.{
  Claim, Slot, Disk, lock_targets_token, slot_targets_token, read_lock_record, read_slot_record,
  unlink_lock, drop_owner, set_slot, set_claimer,
}
use claude_code_fusion.Lock.Calls.{
  lost, thrown, missing, removed, retaken, Pc, seen_before, pausing, observing, targeting, walking,
  looking, unlisted, placing, linking, confirming, found, matching, judging, claimed, weighing,
  weighed, poised, reaped, dropping, cleaning, offering,
}

-- The steps of `acquireReaperClaim`. The random part of the token of the claim is left open.
pub data Acquire (table : Table) (i : ℕ) (mine : Owner) (d : Disk) : Pc → Disk → Pc → Type 0 where
  target_lost :
      {t : ℕ} → lock_targets_token d t ≡ false → Acquire table i mine d (targeting t) d pausing
  target_kept :
      {t : ℕ}
      → lock_targets_token d t ≡ true
      → Acquire table i mine d (targeting t) d (walking (record { target = t; behind = none }) [])
  walk_lost :
      {s : Slot} {seen : List Claim}
      → lock_targets_token d s.target ≡ false
      → Acquire table i mine d (walking s seen) d pausing
  walk_kept :
      {s : Slot} {seen : List Claim}
      → lock_targets_token d s.target ≡ true
      → Acquire table i mine d (walking s seen) d (looking s seen)
  looks_empty :
      {s : Slot} {seen : List Claim}
      → read_slot_record d s ≡ none
      → Acquire table i mine d (looking s seen) d (unlisted s seen)
  looks_found :
      {s : Slot} {seen : List Claim} {c : Claim} {o : Owner}
      → read_slot_record d s ≡ some (c, o)
      → Acquire table i mine d (looking s seen) d (found s seen c o)
  slot_linked :
      {s : Slot} {seen : List Claim} {c : Claim}
      → d.slots s ≡ some c
      → Acquire table i mine d (unlisted s seen) d pausing
  slot_free :
      {s : Slot} {seen : List Claim}
      → d.slots s ≡ none
      → Acquire table i mine d (unlisted s seen) d (placing s seen)
  draws :
      {s : Slot} {seen : List Claim} {c : Claim}
      → c.maker ≡ i
      → Acquire table i mine d (placing s seen) (set_claimer s c (some mine) d) (linking s seen c)
  links :
      {s : Slot} {seen : List Claim} {c : Claim}
      → d.slots s ≡ none
      → Acquire table i mine d (linking s seen c) (set_slot s (some c) d) (confirming s c)
  link_taken :
      {s : Slot} {seen : List Claim} {c x : Claim}
      → d.slots s ≡ some x
      → Acquire table i mine d (linking s seen c) (set_claimer s c none d) (walking s seen)
  confirm_lost :
      {s : Slot} {c : Claim}
      → lock_targets_token d s.target ≡ false
      → Acquire table i mine d (confirming s c) d (dropping lost s c)
  confirms :
      {s : Slot} {c : Claim}
      → lock_targets_token d s.target ≡ true
      → Acquire table i mine d (confirming s c) d (claimed s c)
  found_lost :
      {s : Slot} {seen : List Claim} {c : Claim} {o : Owner}
      → lock_targets_token d s.target ≡ false
      → Acquire table i mine d (found s seen c o) d pausing
  found_kept :
      {s : Slot} {seen : List Claim} {c : Claim} {o : Owner}
      → lock_targets_token d s.target ≡ true
      → Acquire table i mine d (found s seen c o) d (matching s seen c o)
  match_lost :
      {s : Slot} {seen : List Claim} {c : Claim} {o : Owner}
      → slot_targets_token d s c ≡ false
      → Acquire table i mine d (matching s seen c o) d pausing
  match_kept :
      {s : Slot} {seen : List Claim} {c : Claim} {o : Owner}
      → slot_targets_token d s c ≡ true
      → Acquire table i mine d (matching s seen c o) d (judging s seen c o)
  claim_spared :
      {s : Slot} {seen : List Claim} {c : Claim} {o : Owner} (r1 r2 : Bool)
      → lock_owner_was_replaced table r1 r2 o ≡ false
      → Acquire table i mine d (judging s seen c o) d pausing
  claim_seen :
      {s : Slot} {seen : List Claim} {c : Claim} {o : Owner}
      → seen_before c seen ≡ true
      → Acquire table i mine d (judging s seen c o) d pausing
  claim_passed :
      {s : Slot} {seen : List Claim} {c : Claim} {o : Owner} (r1 r2 : Bool)
      → lock_owner_was_replaced table r1 r2 o ≡ true
      → seen_before c seen ≡ false
      → Acquire table i mine d
          (judging s seen c o)
          d
          (walking (record { target = s.target; behind = some c }) (c ∷ seen))

-- The steps of `reclaimReplacedLock` and `cleanupReaperClaims`.
pub data Reclaim (table : Table) (i : ℕ) (mine : Owner) (d : Disk) : Pc → Disk → Pc → Type 0 where
  spares :
      {t : ℕ} {o : Owner} (r1 r2 : Bool)
      → lock_owner_was_replaced table r1 r2 o ≡ false
      → Reclaim table i mine d (observing t o) d pausing
  suspects :
      {t : ℕ} {o : Owner} (r1 r2 : Bool)
      → lock_owner_was_replaced table r1 r2 o ≡ true
      → Reclaim table i mine d (observing t o) d (targeting t)
  current_lost :
      {s : Slot} {c : Claim}
      → ((o : Owner) → read_lock_record d ≢ some (s.target, o))
      → Reclaim table i mine d (claimed s c) d (dropping lost s c)
  current_kept :
      {s : Slot} {c : Claim} {o : Owner}
      → read_lock_record d ≡ some (s.target, o)
      → Reclaim table i mine d (claimed s c) d (weighing s c o)
  weigh_lost :
      {s : Slot} {c : Claim} {o : Owner}
      → lock_targets_token d s.target ≡ false
      → Reclaim table i mine d (weighing s c o) d (dropping lost s c)
  weigh_kept :
      {s : Slot} {c : Claim} {o : Owner}
      → lock_targets_token d s.target ≡ true
      → Reclaim table i mine d (weighing s c o) d (weighed s c o)
  weigh_spared :
      {s : Slot} {c : Claim} {o : Owner} (r1 r2 : Bool)
      → lock_owner_was_replaced table r1 r2 o ≡ false
      → Reclaim table i mine d (weighed s c o) d (dropping lost s c)
  weigh_passed :
      {s : Slot} {c : Claim} {o : Owner} (r1 r2 : Bool)
      → lock_owner_was_replaced table r1 r2 o ≡ true
      → Reclaim table i mine d (weighed s c o) d (poised s c)
  reaps :
      {s : Slot} {c : Claim} {t : ℕ}
      → d.lock ≡ some t
      → Reclaim table i mine d (poised s c) (unlink_lock d) (reaped s c)
  reap_missing :
      {s : Slot} {c : Claim}
      → d.lock ≡ none
      → Reclaim table i mine d (poised s c) d (dropping missing s c)
  reap_throws : {s : Slot} {c : Claim} → Reclaim table i mine d (poised s c) d (dropping thrown s c)
  buries :
      {s : Slot} {c : Claim}
      → Reclaim table i mine d (reaped s c) (drop_owner s.target d) (dropping removed s c)
  cleans_slot :
      {t : ℕ} (s : Slot)
      → s.target ≡ t
      → Reclaim table i mine d (cleaning t) (set_slot s none d) (cleaning t)
  cleans_claimer :
      {t : ℕ} (s : Slot) (c : Claim)
      → s.target ≡ t
      → Reclaim table i mine d (cleaning t) (set_claimer s c none d) (cleaning t)
  cleaned : {t : ℕ} → Reclaim table i mine d (cleaning t) d (offering retaken)
