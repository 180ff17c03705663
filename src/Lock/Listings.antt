-- ===== src/Lock/Listings.antt =====
-- What the directories of the owners say in shared/companion/record-lock.mjs stays true as calls move.
use mathlib.Core.Path.{subst}
use native.Mathlib.Decide.{ℕ_discrete}
use claude_code_fusion.Common.{
  none-ne-some, ℕ, ◌≡◌, refl, sym, Bool, true, false, Option, none, some,
}
use claude_code_fusion.Lock.Identity.{Table, Owner}
use claude_code_fusion.Lock.Disk.{
  Claim, Claim-discrete, Slot, Slot-discrete, Disk, update, update_same, update_other, link_lock,
  unlink_lock, put_owner, drop_owner, mark_released, set_slot, set_claimer,
}
use claude_code_fusion.Lock.Claims.{Acquire, Reclaim}
use claude_code_fusion.Lock.System.{Move}
use claude_code_fusion.Lock.Calls.{
  Wait, Release, Pc, Offer, first, retaken, slept, Outcome, lost, thrown, missing, removed, refused,
  ended,
}
use claude_code_fusion.Lock.Moves.{Listed}

abbrev pub has_begun : Pc → Bool
has_begun Pc.outside = false
has_begun _ = true

-- A value is put in at `k`; what holds of all values goes on to hold.
update-All {ℓ κ μ} :
    {K : Type ℓ} {A : Type κ} (dec : Discrete K) (P : K → A → Type μ) (k : K) (a : A) (f : K → A)
    → P k a
    → ((j : K) → P j (f j))
    → (j : K) → P j (update dec k a f j)
update-All dec P k a f new old j = elim (dec k j) [
  | yes e ↦
      subst (λ x. P x (update dec k a f x)) e (subst (λ y. P k y) (sym (update_same dec k a f)) new)
  | no ne ↦ subst (λ y. P j y) (sym (update_other dec k a f j ne)) (old j)
]

module _ (owner : ℕ → Owner) (begun : ℕ → Bool) where
  abbrev InOwners : ℕ → Option Owner → Type 0
  InOwners t m = (o : Owner) → m ≡ some o → Listed owner begun t o

  abbrev pub InDisk : Disk → Type 0
  InDisk d =
      ((t : ℕ) → InOwners t (d.owners t))
      × ((r : Slot) (c : Claim) → InOwners c.maker (d.claimers r c))

  none-InOwners : (t : ℕ) → InOwners t none
  none-InOwners t o e = absurd (none-ne-some _ e)

  own-InOwners : (t : ℕ) → begun t ≡ true → InOwners t (some (owner t))
  own-InOwners t b o e = (own e, b)
    where
      own : some (owner t) ≡ some o → o ≡ owner t
      own e = cc

  set_claimer-InDisk :
      (s : Slot) (c : Claim) (m : Option Owner) (d : Disk)
      → InOwners c.maker m
      → InDisk d
      → InDisk (set_claimer s c m d)
  unfolding set_claimer
  set_claimer-InDisk s c m d new (os, cs) = (
    os,
    λ r.
        update-All Slot-discrete
          (λ (_ : Slot) (f : Claim → Option Owner). (x : Claim) → InOwners x.maker (f x)) s
          (update Claim-discrete c m (d.claimers s)) d.claimers
          (update-All Claim-discrete (λ (x : Claim) (o : Option Owner). InOwners x.maker o) c m
            (d.claimers s) new (cs s))
          cs r,
  )

  drop_owner-InDisk : (t : ℕ) (d : Disk) → InDisk d → InDisk (drop_owner t d)
  unfolding drop_owner
  drop_owner-InDisk t d (os, cs) =
      (update-All ℕ_discrete InOwners t none d.owners (none-InOwners t) os, cs)

  put_owner-InDisk :
      (t : ℕ) (d : Disk) → begun t ≡ true → InDisk d → InDisk (put_owner t (owner t) d)
  unfolding put_owner
  put_owner-InDisk t d b (os, cs) =
      (update-All ℕ_discrete InOwners t (some (owner t)) d.owners (own-InOwners t b) os, cs)

  pub Move-InDisk :
      {table : Table} {i : ℕ} {d d' : Disk} {p p' : Pc}
      → begun i ≡ true
      → Move table i (owner i) d p d' p'
      → InDisk d
      → InDisk d'
  unfolding link_lock unlink_lock mark_released set_slot
  Move-InDisk {d = d} b (Move.waits (Wait.swept_first {t})) h = drop_owner-InDisk t d h
  Move-InDisk {d = d} b (Move.waits (Wait.swept_last {t})) h = drop_owner-InDisk t d h
  Move-InDisk {i = i} {d = d} b (Move.waits Wait.prepares) h = put_owner-InDisk i d b h
  Move-InDisk {i = i} {d = d} b (Move.acquires (Acquire.draws {s} {c} e)) h =
      set_claimer-InDisk s c _ d
        (subst (λ (x : ℕ). InOwners x (some (owner i))) (sym e) (own-InOwners i b)) h
  Move-InDisk {d = d} b (Move.acquires (Acquire.link_taken {s} {c} e)) h =
      set_claimer-InDisk s c none d (none-InOwners c.maker) h
  Move-InDisk {d = d} b (Move.reclaims (Reclaim.buries {s})) h = drop_owner-InDisk s.target d h
  Move-InDisk {d = d} b (Move.releases (Release.drop_lost {s} {c} e)) h =
      set_claimer-InDisk s c none d (none-InOwners c.maker) h
  Move-InDisk {d = d} b (Move.releases (Release.drops {s} {c})) h =
      set_claimer-InDisk s c none d (none-InOwners c.maker) h
  Move-InDisk {d = d} b (Move.reclaims (Reclaim.cleans_claimer s c e)) h =
      set_claimer-InDisk s c none d (none-InOwners c.maker) h
  Move-InDisk {i = i} {d = d} b (Move.releases (Release.release_lost e)) h = drop_owner-InDisk i d h
  Move-InDisk {i = i} {d = d} b (Move.releases Release.discards) h = drop_owner-InDisk i d h
  Move-InDisk {i = i} {d = d} b (Move.waits Wait.gives_up) h = drop_owner-InDisk i d h
  Move-InDisk b _ h = h

refused-begun : (o : Offer) → has_begun (refused o) ≡ true
unfolding refused
refused-begun first = refl
refused-begun retaken = refl
refused-begun slept = refl

ended-begun : (e : Outcome) (t : ℕ) → has_begun (ended e t) ≡ true
unfolding ended
ended-begun lost t = refl
ended-begun thrown t = refl
ended-begun missing t = refl
ended-begun removed t = refl

pub Move-begun :
    {table : Table} {i : ℕ} {o : Owner} {d d' : Disk} {p p' : Pc}
    → Move table i o d p d' p'
    → has_begun p' ≡ true
Move-begun (Move.waits (Wait.finds_taken {o} _)) = refused-begun o
Move-begun (Move.releases (Release.drop_lost {e} {s} _)) = ended-begun e s.target
Move-begun (Move.releases (Release.unhook_missing {e} {s} _)) = ended-begun e s.target
Move-begun (Move.releases (Release.drops {e} {s})) = ended-begun e s.target
Move-begun (Move.acquires (Acquire.draws _)) = refl
Move-begun (Move.reclaims Reclaim.buries) = refl
Move-begun _ = refl
