-- ===== src/Lock/Exclusion.antt =====
-- The lock of shared/companion/record-lock.mjs excludes: what follows from the invariant.
use mathlib.Core.Path.{subst}
use native.Mathlib.Decide.{ℕ_discrete}
use claude_code_fusion.Common.{
  some-injective, false-ne-true, none-ne-some, ℕ, ◌≡◌, refl, sym, ◌∙◌, ◌⊎◌, inl, inr, Bool, true,
  some,
}
use claude_code_fusion.Lock.Identity.{Table, Owner, Runs}
use claude_code_fusion.Lock.Disk.{
  Disk, update, update_same, link_lock, unlink_lock, put_owner, drop_owner, mark_released, set_slot,
  set_claimer,
}
use claude_code_fusion.Lock.Claims.{Acquire, Reclaim}
use claude_code_fusion.Lock.Calls.{Wait, Release, Pc}
use claude_code_fusion.Lock.System.{
  System, Step, moves, exits, spawns, Reach, holds, Move, TightRun,
}
use claude_code_fusion.Lock.Chain.{View}
use claude_code_fusion.Lock.Facts.{Locked, Fits}
use claude_code_fusion.Lock.Frames.{seen}
use claude_code_fusion.Lock.Invariant.{view, Reach-Inv}

module _ (owner : ℕ → Owner) where
  holds-Locked :
      (v : View) (i : ℕ) (p : Pc) → holds p ≡ true → Fits owner v i p → Locked owner v i i
  holds-Locked v i Pc.inside h k = k
  holds-Locked v i Pc.releasing h k = k
  holds-Locked v i Pc.unlocking h k = k
  holds-Locked v i _ h k = absurd (false-ne-true h)

  -- What a move may do to the lock of a call that runs.
  Move-lock :
      {table : Table} (begun : ℕ → Bool) {i : ℕ} {d d' : Disk} {p p' : Pc} (t : ℕ)
      → Runs table (owner i)
      → Runs table (owner t)
      → d.lock ≡ some t
      → Fits owner (seen table begun d) i p
      → Move table i (owner i) d p d' p'
      → (d'.lock ≡ some t) ⊎ ((i ≡ t) × (p ≡ Pc.unlocking) × (p' ≡ Pc.unlocked))
  unfolding link_lock unlink_lock put_owner drop_owner mark_released set_slot set_claimer
  Move-lock begun t run_i run_t l k (Move.waits (Wait.publishes free)) =
      inl (absurd (none-ne-some _ (sym free ∙ l)))
  Move-lock {table} begun t run_i run_t l k (Move.reclaims (Reclaim.reaps {s} _)) = inl (
      absurd (
        k.claims.walked.gone.stopped (
          subst (λ (x : ℕ). Runs table (owner x)) (some-injective _ _ (sym l ∙ k.still run_i))
            run_t)))
  Move-lock begun {i = i} t run_i run_t l k (Move.releases (Release.unlocks _)) =
      inr (some-injective _ _ (sym (k run_i) ∙ l), refl, refl)
  Move-lock begun t run_i run_t l k (Move.acquires (Acquire.draws _)) = inl l
  Move-lock begun t run_i run_t l k _ = inl l

-- However the calls, exits and starts of processes follow each other, two calls whose processes run are
-- never both in their callbacks, and the link points to the one that is. The condition is that in each step
-- of the run that passes by a claim, the slot still points to that claim.
pub mutual_exclusion :
    (owner : ℕ → Owner) (table : Table) (s : System)
    → (r : Reach owner table s) → TightRun r
    → (i j : ℕ) → Runs s.table (owner i)
    → Runs s.table (owner j)
    → holds (s.pc i) ≡ true
    → holds (s.pc j) ≡ true
    → (i ≡ j) × (s.disk.lock ≡ some i)
mutual_exclusion owner table s r w i j run_i run_j in_i in_j =
    let v = Reach-Inv owner r w in
    let at_i = holds-Locked owner (view s) i (s.pc i) in_i (v.fits i) run_i in
    let at_j = holds-Locked owner (view s) j (s.pc j) in_j (v.fits j) run_j in
    (some-injective _ _ (sym at_i ∙ at_j), at_i)

-- A lock whose call is of a running process stays through any step, but for the step of that call itself
-- that unlinks it. The condition is that in each step of the run so far that passes by a claim, the slot
-- still points to that claim.
pub lock_stays :
    (owner : ℕ → Owner) (table : Table) (s u : System) (t : ℕ)
    → (r : Reach owner table s) → TightRun r
    → Runs s.table (owner t)
    → s.disk.lock ≡ some t
    → Step owner s u
    → (u.disk.lock ≡ some t) ⊎ ((s.pc t ≡ Pc.unlocking) × (u.pc t ≡ Pc.unlocked))
lock_stays owner table s u t r w run l (moves i {d} {p} run_i m) =
    go (Move-lock owner _ t run_i run l ((Reach-Inv owner r w).fits i) m)
  where
    go :
        (d.lock ≡ some t) ⊎ ((i ≡ t) × (s.pc i ≡ Pc.unlocking) × (p ≡ Pc.unlocked))
        → (d.lock ≡ some t)
          ⊎ ((s.pc t ≡ Pc.unlocking) × (update ℕ_discrete i p s.pc t ≡ Pc.unlocked))
    go (inl kept) = inl kept
    go (inr (e, at, to)) = inr (
      subst (λ (x : ℕ). s.pc x ≡ Pc.unlocking) e at,
      subst (λ (x : ℕ). update ℕ_discrete i p s.pc x ≡ Pc.unlocked) e
          (update_same ℕ_discrete i p s.pc ∙ to),
    )
lock_stays owner table s u t r w run l (exits pid) = inl l
lock_stays owner table s u t r w run l (spawns o fresh free) = inl l
