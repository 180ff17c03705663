-- ===== src/Lock/Recovery.antt =====
-- How a call of withRecordLock (shared/companion/record-lock.mjs), while no other call moves, takes over the
-- lock of a process that is gone.
use claude_code_fusion.Common.{
  ℕ, zero, suc, ◌≡◌, refl, sym, ap, ◌∙◌, true, false, none, some, arith, List, [], ◌∷◌,
}
use claude_code_fusion.Lock.Identity.{Table, Owner, lock_owner_was_replaced}
use claude_code_fusion.Lock.Disk.{
  Claim, Slot, Slot-discrete, Disk, update_same, read_lock_record, read_slot_record, link_lock,
  unlink_lock, drop_owner, set_slot, set_claimer,
}
use claude_code_fusion.Lock.Claims.{Acquire, Reclaim}
use claude_code_fusion.Lock.System.{Move}
use claude_code_fusion.Lock.Calls.{Offer, Outcome, refused, Wait, Release, Pc, seen_before, ended}
use claude_code_fusion.Lock.Alone.{Alone, here, next, also, targets, slot_targets}

module _ (table : Table) (i : ℕ) (mine : Owner) where
  -- From a slot on stand `n` claims of processes that are gone, none of them met before, and then a free slot.
  pub data Passable (d : Disk) : Slot → List Claim → ℕ → Type 0 where
    free : {s : Slot} {seen : List Claim} → d.slots s ≡ none → Passable d s seen zero
    behind :
        {s : Slot} {seen : List Claim} {n : ℕ} (c : Claim) (o : Owner)
        → d.slots s ≡ some c
        → read_slot_record d s ≡ some (c, o)
        → lock_owner_was_replaced table true true o ≡ true
        → seen_before c seen ≡ false
        → Passable d (record { target = s.target; behind = some c }) (c ∷ seen) n
        → Passable d s seen (suc n)

  empty_record : (d : Disk) (s : Slot) → d.slots s ≡ none → read_slot_record d s ≡ none
  unfolding read_slot_record
  empty_record d s e = ground arith

  -- Behind the walk, a claim of the call's own stands in a slot of the same lock.
  record Walked (d : Disk) (t : ℕ) (seen : List Claim) (from : Slot) : Type 0 where
    disk : Disk
    slot : Slot
    claim : Claim
    steps : Alone table i mine d (Pc.walking from seen) disk (Pc.claimed slot claim)
    of : slot.target ≡ t
    linked : disk.slots slot ≡ some claim
    same_lock : disk.lock ≡ d.lock
    same_owners : disk.owners ≡ d.owners

  walks :
      (d : Disk) (s : Slot) (seen : List Claim) (n : ℕ)
      → d.lock ≡ some s.target
      → Passable d s seen n
      → Walked d s.target seen s
  unfolding set_claimer set_slot
  walks d s seen n l (free e) =
      let c : Claim = record { maker = i; draw = 0 } in
      let drawn = set_claimer s c (some mine) d in
      record {
        disk = set_slot s (some c) drawn;
        slot = s;
        claim = c;
        steps = next (Move.acquires (Acquire.walk_kept (targets table i mine d s.target l))) (
            next (Move.acquires (Acquire.looks_empty (empty_record d s e))) (
              next (Move.acquires (Acquire.slot_free e)) (
                next (Move.acquires (Acquire.draws refl)) (
                  next (Move.acquires (Acquire.links e)) (
                    next
                      (Move.acquires (
                        Acquire.confirms
                          (targets table i mine (set_slot s (some c) drawn) s.target l)))
                      here)))));
        of = refl;
        linked = update_same Slot-discrete s (some c) d.slots;
        same_lock = refl;
        same_owners = refl;
      }
  walks d s seen n l (behind c o e r gone unseen rest) =
      let w = walks d (record { target = s.target; behind = some c }) (c ∷ seen) _ l rest in
      record {
        disk = w.disk;
        slot = w.slot;
        claim = w.claim;
        steps = next (Move.acquires (Acquire.walk_kept (targets table i mine d s.target l))) (
            next (Move.acquires (Acquire.looks_found r)) (
              next (Move.acquires (Acquire.found_kept (targets table i mine d s.target l))) (
                next (Move.acquires (Acquire.match_kept (slot_targets table i mine d s c e)))
                  (next (Move.acquires (Acquire.claim_passed true true gone unseen)) w.steps))));
        of = w.of;
        linked = w.linked;
        same_lock = w.same_lock;
        same_owners = w.same_owners;
      }

  same_record :
      (d e : Disk) → e.lock ≡ d.lock → e.owners ≡ d.owners → read_lock_record e ≡ read_lock_record d
  unfolding read_lock_record
  same_record d e l o = λ j. read_lock_record (record d { lock = l j; owners = o j })

  -- From the claim on, the lock is reaped, the claim given back and the lock taken.
  reaping :
      (d : Disk) (s : Slot) (c : Claim) (o : Owner)
      → d.slots s ≡ some c
      → d.lock ≡ some s.target
      → read_lock_record d ≡ some (s.target, o)
      → lock_owner_was_replaced table true true o ≡ true
      → (e : Disk) × Alone table i mine d (Pc.claimed s c) e Pc.inside × (e.lock ≡ some i)
  unfolding unlink_lock drop_owner set_slot set_claimer link_lock ended
  reaping d s c o linked l r gone =
      let buried = drop_owner s.target (unlink_lock d) in
      (
        _,
        next (Move.reclaims (Reclaim.current_kept r)) (
            next (Move.reclaims (Reclaim.weigh_kept (targets table i mine d s.target l))) (
              next (Move.reclaims (Reclaim.weigh_passed true true gone)) (
                next (Move.reclaims (Reclaim.reaps l)) (
                  next (Move.reclaims Reclaim.buries) (
                    next
                      (Move.releases
                        (Release.drop_kept (slot_targets table i mine buried s c linked)))
                      (next (Move.releases (Release.unhooks linked)) (
                        next (Move.releases Release.drops) (
                          next (Move.reclaims Reclaim.cleaned)
                            (next (Move.waits (Wait.publishes refl)) here))))))))),
        refl,
      )

  -- A call is in its callback with the lock.
  abbrev Entered : Disk → Pc → Type 0
  Entered d Pc.inside = d.lock ≡ some i
  Entered d _ = Unit

  refused-Entered : (o : Offer) (d : Disk) → Entered d (refused o)
  unfolding refused
  refused-Entered Offer.first d = tt
  refused-Entered Offer.retaken d = tt
  refused-Entered Offer.slept d = tt

  ended-Entered : (o : Outcome) (t : ℕ) (d : Disk) → Entered d (ended o t)
  unfolding ended
  ended-Entered Outcome.lost t d = tt
  ended-Entered Outcome.thrown t d = tt
  ended-Entered Outcome.missing t d = tt
  ended-Entered Outcome.removed t d = tt

  Move-Entered : {d e : Disk} {p q : Pc} → Move table i mine d p e q → Entered e q
  unfolding link_lock
  Move-Entered (Move.waits (Wait.publishes none_there)) = refl
  Move-Entered {e = f} (Move.waits (Wait.finds_taken {o} l)) = refused-Entered o f
  Move-Entered {e = f} (Move.releases (Release.drop_lost {e} {s} h)) = ended-Entered e s.target f
  Move-Entered {e = f} (Move.releases (Release.unhook_missing {e} {s} h)) =
      ended-Entered e s.target f
  Move-Entered {e = f} (Move.releases (Release.drops {e} {s})) = ended-Entered e s.target f
  Move-Entered (Move.acquires (Acquire.draws h)) = tt
  Move-Entered (Move.reclaims Reclaim.buries) = tt
  Move-Entered _ = tt

  Alone-Entered : {d e : Disk} {p q : Pc} → Alone table i mine d p e q → Entered d p → Entered e q
  Alone-Entered here k = k
  Alone-Entered (next m a) k = Alone-Entered a (Move-Entered m)

  -- A call that waits for the lock of a process that is gone, with any number of claims on it whose
  -- owners are gone too, can go on to its callback: there are moves of its own, with no other call's between
  -- them, that lead there. And whichever of its own moves lead there, it has the lock.
  pub takes_over :
      (d : Disk) (t n : ℕ) (o : Owner)
      → d.lock ≡ some t
      → read_lock_record d ≡ some (t, o)
      → lock_owner_was_replaced table true true o ≡ true
      → Passable d (record { target = t; behind = none }) [] n
      → ((e : Disk) × Alone table i mine d Pc.waiting e Pc.inside)
        × ((e : Disk) → Alone table i mine d Pc.waiting e Pc.inside → e.lock ≡ some i)
  takes_over d t n o l r gone passable =
      let w = walks d (record { target = t; behind = none }) [] n l passable in
      let (e, steps, _) =
        reaping w.disk w.slot w.claim o w.linked
          (w.same_lock ∙ (l ∙ ap (λ (x : ℕ). some x) (sym w.of)))
          (same_record d w.disk w.same_lock w.same_owners
            ∙ (r ∙ ap (λ (x : ℕ). some (x, o)) (sym w.of)))
          gone in
      (
        (
          e,
          next (Move.waits (Wait.reads_record r)) (
              next (Move.reclaims (Reclaim.suspects true true gone)) (
                next (Move.acquires (Acquire.target_kept (targets table i mine d t l)))
                  (also table i mine w.steps steps))),
        ),
        λ e a. Alone-Entered a tt,
      )
