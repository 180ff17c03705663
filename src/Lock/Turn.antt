-- ===== src/Lock/Turn.antt =====
-- The next step of a call of withRecordLock (shared/companion/record-lock.mjs), by evaluation.
use mathlib.Core.Logic.{dite}
use native.Mathlib.Decide.{ℕ_discrete}
use claude_code_fusion.Common.{
  false-ne-true, ℕ, ◌≡◌, refl, sym, ◌∙◌, Bool, true, false, Option, none, some,
}
use claude_code_fusion.Lock.Identity.{Table, Owner, valid_owner, lock_owner_was_replaced}
use claude_code_fusion.Lock.Disk.{
  Claim, Slot, Disk, lock_targets_token, slot_targets_token, read_lock_record, read_slot_record,
}
use claude_code_fusion.Lock.Claims.{Acquire, Reclaim}
use claude_code_fusion.Lock.Calls.{Wait, Release, Pc, seen_before}
use claude_code_fusion.Lock.System.{Move, IsTight}

-- With `strict`, only a move that keeps the condition of `IsTight` is taken.
pub record Next (strict : Bool) (table : Table) (i : ℕ) (mine : Owner) (d : Disk) (p : Pc)
    : Type 0 where
  pub disk : Disk
  pub pc : Pc
  pub move : Move table i mine d p disk pc
  pub tight : strict ≡ true → IsTight move

module _ (strict : Bool) (table : Table) (i : ℕ) (mine : Owner) (d : Disk) where
  abbrev Going : Pc → Type 0
  Going p = Option (Next strict table i mine d p)

  go :
      {p : Pc} {d' : Disk} {p' : Pc} (m : Move table i mine d p d' p')
      → (strict ≡ true → IsTight m)
      → Going p
  go m w = some (record { disk = _; pc = _; move = m; tight = w })

  wait : {p : Pc} {d' : Disk} {p' : Pc} → Wait table i mine d p d' p' → Going p
  unfolding go
  wait m = go (Move.waits m) (λ _. tt)

  acquire :
      {p : Pc} {d' : Disk} {p' : Pc} (m : Acquire table i mine d p d' p')
      → IsTight (Move.acquires m)
      → Going p
  unfolding go
  acquire m w = go (Move.acquires m) (λ _. w)

  reclaim : {p : Pc} {d' : Disk} {p' : Pc} → Reclaim table i mine d p d' p' → Going p
  unfolding go
  reclaim m = go (Move.reclaims m) (λ _. tt)

  release : {p : Pc} {d' : Disk} {p' : Pc} → Release table i mine d p d' p' → Going p
  unfolding go
  release m = go (Move.releases m) (λ _. tt)

  choose : {p : Pc} (b : Bool) → ((b ≡ true) → Going p) → ((b ≡ false) → Going p) → Going p
  choose true y n = y refl
  choose false y n = n refl

  option {ℓ} :
      {A : Type ℓ} {p : Pc} (o : Option A)
      → ((a : A) → o ≡ some a → Going p)
      → (o ≡ none → Going p)
      → Going p
  option none y n = n refl
  option (some a) y n = y a refl

  current :
      (s : Slot) (c : Claim) (r : Option (ℕ × Owner))
      → read_lock_record d ≡ r
      → Going (Pc.claimed s c)
  unfolding go reclaim
  current s c none e = reclaim (Reclaim.current_lost (λ o h. cc (sym e ∙ h)))
  current s c (some (t, o)) e =
      dite (ℕ_discrete t s.target) (λ same. reclaim (Reclaim.current_kept {o = o} (cc)))
        (λ ne. none)

  -- Every reading of an identity succeeds, no directory is swept, and no call times out.
  unfoldable pub next : (p : Pc) → Going p
  unfolding go wait acquire reclaim release choose option current valid_owner
      lock_owner_was_replaced lock_targets_token slot_targets_token read_lock_record
      read_slot_record seen_before
  next Pc.outside = choose (valid_owner mine) (λ v. wait (Wait.begins v)) (λ _. none)
  next (Pc.arriving none) = wait Wait.prepares
  next (Pc.arriving (some t)) = wait Wait.swept_first
  next (Pc.offering o) =
      option d.lock (λ t e. wait (Wait.finds_taken e)) (λ e. wait (Wait.publishes e))
  next Pc.waiting =
      option (read_lock_record d) (λ (t, o) e. wait (Wait.reads_record e))
        (λ e. wait (Wait.reads_nothing e))
  next Pc.pausing = wait Wait.sleeps
  next (Pc.observing t o) =
      choose (lock_owner_was_replaced table true true o)
        (λ e. reclaim (Reclaim.suspects true true e)) (λ e. reclaim (Reclaim.spares true true e))
  next (Pc.targeting t) =
      choose (lock_targets_token d t) (λ e. acquire (Acquire.target_kept e) tt)
        (λ e. acquire (Acquire.target_lost e) tt)
  next (Pc.walking s seen) =
      choose (lock_targets_token d s.target) (λ e. acquire (Acquire.walk_kept e) tt)
        (λ e. acquire (Acquire.walk_lost e) tt)
  next (Pc.looking s seen) =
      option (read_slot_record d s) (λ (c, o) e. acquire (Acquire.looks_found e) tt)
        (λ e. acquire (Acquire.looks_empty e) tt)
  next (Pc.unlisted s seen) =
      option (d.slots s) (λ c e. acquire (Acquire.slot_linked e) tt)
        (λ e. acquire (Acquire.slot_free e) tt)
  next (Pc.placing s seen) = acquire (Acquire.draws {c = record { maker = i; draw = 0 }} refl) tt
  next (Pc.linking s seen c) =
      option (d.slots s) (λ x e. acquire (Acquire.link_taken e) tt)
        (λ e. acquire (Acquire.links e) tt)
  next (Pc.confirming s c) =
      choose (lock_targets_token d s.target) (λ e. acquire (Acquire.confirms e) tt)
        (λ e. acquire (Acquire.confirm_lost e) tt)
  next (Pc.found s seen c o) =
      choose (lock_targets_token d s.target) (λ e. acquire (Acquire.found_kept e) tt)
        (λ e. acquire (Acquire.found_lost e) tt)
  next (Pc.matching s seen c o) =
      choose (slot_targets_token d s c) (λ e. acquire (Acquire.match_kept e) tt)
        (λ e. acquire (Acquire.match_lost e) tt)
  next (Pc.judging s seen c o) =
      choose (lock_owner_was_replaced table true true o)
        (λ e.
          choose (seen_before c seen) (λ y. acquire (Acquire.claim_seen y) tt)
            (λ n.
              choose (slot_targets_token d s c)
                (λ y. go (Move.acquires (Acquire.claim_passed true true e n)) (λ _. y))
                (λ _.
                  choose strict (λ _. none)
                    (λ loose.
                      go (Move.acquires (Acquire.claim_passed true true e n))
                        (λ w. absurd (false-ne-true (sym loose ∙ w)))))))
        (λ e. acquire (Acquire.claim_spared true true e) tt)
  next (Pc.claimed s c) = current s c (read_lock_record d) refl
  next (Pc.weighing s c o) =
      choose (lock_targets_token d s.target) (λ e. reclaim (Reclaim.weigh_kept e))
        (λ e. reclaim (Reclaim.weigh_lost e))
  next (Pc.weighed s c o) =
      choose (lock_owner_was_replaced table true true o)
        (λ e. reclaim (Reclaim.weigh_passed true true e))
        (λ e. reclaim (Reclaim.weigh_spared true true e))
  next (Pc.poised s c) =
      option d.lock (λ t e. reclaim (Reclaim.reaps e)) (λ e. reclaim (Reclaim.reap_missing e))
  next (Pc.reaped s c) = reclaim Reclaim.buries
  next (Pc.dropping e s c) =
      choose (slot_targets_token d s c) (λ y. release (Release.drop_kept y))
        (λ n. release (Release.drop_lost n))
  next (Pc.unhooking e s c) =
      option (d.slots s) (λ x y. release (Release.unhooks y))
        (λ n. release (Release.unhook_missing n))
  next (Pc.dropped e s c) = release Release.drops
  next (Pc.cleaning t) = reclaim Reclaim.cleaned
  next Pc.inside = release Release.returns
  next Pc.releasing =
      choose (lock_targets_token d i) (λ e. release (Release.release_kept e))
        (λ e. release (Release.release_lost e))
  next Pc.unlocking =
      option d.lock (λ t e. release (Release.unlocks e)) (λ e. release (Release.unlock_missing e))
  next Pc.unlocked = release Release.discards
  next Pc.failing = wait Wait.gives_up
  next (Pc.leaving none) = wait Wait.leaves
  next (Pc.leaving (some t)) = wait Wait.swept_last
  next Pc.done = none
