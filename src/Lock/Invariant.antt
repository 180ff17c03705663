-- ===== src/Lock/Invariant.antt =====
-- What holds of calls of withRecordLock (shared/companion/record-lock.mjs) and their processes in every
-- reachable state.
use mathlib.Core.Path.{subst}
use native.Mathlib.Decide.{ℕ_discrete}
use claude_code_fusion.Common.{
  false-ne-true, none-ne-some, ℕ, ◌≡◌, refl, sym, ap, ◌∙◌, inl, inr, Bool, true, false, Option,
  none, some, arith, Bool-cases,
}
use claude_code_fusion.Lock.Identity.{Table, Owner, Runs}
use claude_code_fusion.Lock.Disk.{Claim, Slot, Disk, update, update_same, update_other}
use claude_code_fusion.Lock.Calls.{Pc}
use claude_code_fusion.Lock.System.{
  System, Step, moves, exits, spawns, Reach, start, later, Move, IsTight, TightStep, TightRun,
}
use claude_code_fusion.Lock.Chain.{View}
use claude_code_fusion.Lock.Facts.{Fits, Frame, Fits-kept}
use claude_code_fusion.Lock.Frames.{seen, Move-Frame}
use claude_code_fusion.Lock.Moves.{Move-Fits}
use claude_code_fusion.Lock.Listings.{has_begun, InDisk, Move-InDisk, Move-begun}

abbrev begun_in : (ℕ → Pc) → ℕ → Bool
begun_in pc i = has_begun (pc i)

abbrev pub view : System → View
view s = seen s.table (begun_in s.pc) s.disk

module _ (owner : ℕ → Owner) where
  pub record Inv (s : System) : Type 0 where
    pub fits : (i : ℕ) → Fits owner (view s) i (s.pc i)
    pub listed : InDisk owner (begun_in s.pc) s.disk

  -- A call that has not begun relies on nothing.
  Fits-outside : (v : View) (i : ℕ) (p : Pc) → has_begun p ≡ false → Fits owner v i p
  Fits-outside v i Pc.outside e = tt
  Fits-outside v i (Pc.arriving _) e = tt
  Fits-outside v i (Pc.offering _) e = tt
  Fits-outside v i Pc.waiting e = tt
  Fits-outside v i Pc.pausing e = tt
  Fits-outside v i Pc.unlocked e = tt
  Fits-outside v i Pc.failing e = tt
  Fits-outside v i (Pc.leaving _) e = tt
  Fits-outside v i Pc.done e = tt
  Fits-outside v i _ e = absurd (false-ne-true (sym e))

  Fits-across :
      (v w : View) (i : ℕ) (p : Pc)
      → v.begun i ≡ has_begun p
      → Frame owner v w i
      → Fits owner v i p
      → Fits owner w i p
  Fits-across v w i p e f k = elim (Bool-cases (has_begun p)) [
    | inl y ↦ Fits-kept owner f (e ∙ y) p k
    | inr n ↦ Fits-outside w i p n
  ]

  -- More calls have begun, and no process has come back.
  wider-Frame :
      (v w : View) (i : ℕ)
      → v.lock ≡ w.lock
      → v.slots ≡ w.slots
      → ((t : ℕ) → v.begun t ≡ true → w.begun t ≡ true)
      → ((t : ℕ) → v.begun t ≡ true → Runs w.table (owner t) → Runs v.table (owner t))
      → Frame owner v w i
  wider-Frame v w i l sl stays ran = record {
    stays = stays;
    ran = ran;
    no_return = λ t g e. l ∙ e;
    chain_kept = λ s c g e at g'. ap (λ (f : Slot → Option Claim). f s) (sym sl) ∙ at;
    claim_kept = λ s c k r e e'. ap (λ (f : Slot → Option Claim). f s) (sym sl) ∙ k.kept r e';
    own_kept = λ r e. sym l ∙ e;
    target_kept = λ s c k r e. sym l ∙ e;
  }

  -- The process table changes, and no process of a call that has begun comes back.
  table-Inv :
      (s : System) (table : Table)
      → ((t : ℕ) → has_begun (s.pc t) ≡ true → Runs table (owner t) → Runs s.table (owner t))
      → Inv s
      → Inv (record s { table = table })
  table-Inv s table ran v = record {
    fits = λ i.
        Fits-across (view s) (view (record s { table = table })) i (s.pc i) refl
          (wider-Frame (view s) (view (record s { table = table })) i refl refl (λ t b. b) ran)
          (v.fits i);
    listed = v.listed;
  }

  exits-Inv :
      (s : System) (pid : ℕ) → Inv s → Inv (record s { table = update ℕ_discrete pid none s.table })
  unfolding update
  exits-Inv s pid = table-Inv s _ (λ t b r. ground arith)

  spawns-Inv :
      (s : System) (o : Owner)
      → ((i : ℕ) → owner i ≡ o → s.pc i ≡ Pc.outside)
      → Inv s
      → Inv (record s { table = update ℕ_discrete o.pid (some o.identity) s.table })
  spawns-Inv s o fresh = table-Inv s _ ran
    where
      ran :
          (t : ℕ)
          → has_begun (s.pc t) ≡ true
          → Runs (update ℕ_discrete o.pid (some o.identity) s.table) (owner t)
          → Runs s.table (owner t)
      ran t b r = elim (ℕ_discrete o.pid (owner t).pid) [
        | yes e ↦ absurd (met e)
        | no ne ↦ sym (update_other ℕ_discrete o.pid (some o.identity) s.table (owner t).pid ne) ∙ r
      ]
        where
          met : o.pid ≡ (owner t).pid → ⊥
          met e =
              let r' : update ℕ_discrete o.pid (some o.identity) s.table o.pid
                  ≡ some (owner t).identity =
                ap (update ℕ_discrete o.pid (some o.identity) s.table) e ∙ r in
              let same : some o.identity ≡ some (owner t).identity =
                sym (update_same ℕ_discrete o.pid (some o.identity) s.table) ∙ r' in
              let out = fresh t (same_owner e same) in false-ne-true (sym (ap has_begun out) ∙ b)
            where
              same_owner :
                  o.pid ≡ (owner t).pid → some o.identity ≡ some (owner t).identity → owner t ≡ o
              same_owner e same = cc

  module _ (s : System) (i : ℕ) (run : Runs s.table (owner i)) {d : Disk} {p : Pc} where
    moves-Inv :
        (m : Move s.table i (owner i) s.disk (s.pc i) d p)
        → IsTight m
        → Inv s
        → Inv (record { disk = d; table = s.table; pc = update ℕ_discrete i p s.pc })
    moves-Inv m w v = record { fits = fits; listed = Move-InDisk owner begun own m listed }
      where
        pcs : ℕ → Pc
        pcs = update ℕ_discrete i p s.pc

        begun : ℕ → Bool
        begun = begun_in pcs

        between : View
        between = seen s.table begun s.disk

        own : begun i ≡ true
        own = ap has_begun (update_same ℕ_discrete i p s.pc) ∙ Move-begun m

        stays : (t : ℕ) → has_begun (s.pc t) ≡ true → begun t ≡ true
        stays t b = elim (ℕ_discrete i t) [
          | yes e ↦ subst (λ (x : ℕ). begun x ≡ true) e own
          | no ne ↦ ap has_begun (update_other ℕ_discrete i p s.pc t ne) ∙ b
        ]

        listed : InDisk owner begun s.disk
        listed = (
          λ t o e. let (k, b) = v.listed.0 t o e in (k, stays t b),
          λ r c o e. let (k, b) = v.listed.1 r c o e in (k, stays c.maker b),
        )

        halfway : (j : ℕ) → Fits owner between j (s.pc j)
        halfway j =
            Fits-across (view s) between j (s.pc j) refl
              (wider-Frame (view s) between j refl refl stays (λ t b r. r)) (v.fits j)

        fits : (j : ℕ) → Fits owner (seen s.table begun d) j (pcs j)
        fits j = elim (ℕ_discrete i j) [
          | yes e ↦
              subst (λ (x : ℕ). Fits owner (seen s.table begun d) x (pcs x)) e
                (subst (λ (q : Pc). Fits owner (seen s.table begun d) i q)
                  (sym (update_same ℕ_discrete i p s.pc))
                  (Move-Fits owner s.table begun i s.disk run listed.0 listed.1 (halfway i) m w))
          | no ne ↦
              let same = update_other ℕ_discrete i p s.pc j ne in
              subst (λ (q : Pc). Fits owner (seen s.table begun d) j q) (sym same)
                (Fits-across between (seen s.table begun d) j (s.pc j) (ap has_begun same)
                  (Move-Frame owner s.table begun s.disk i j run ne (halfway i) m) (halfway j))
        ]

  Step-Inv : {s t : System} (m : Step owner s t) → TightStep m → Inv s → Inv t
  Step-Inv {s} (moves i r m) w v = moves-Inv s i r m w v
  Step-Inv {s} (exits pid) _ v = exits-Inv s pid v
  Step-Inv {s} (spawns o fresh free) _ v = spawns-Inv s o fresh v

  pub Reach-Inv : {table : Table} {s : System} (r : Reach owner table s) → TightRun r → Inv s
  Reach-Inv start _ = record {
    fits = λ i. tt;
    listed = (λ t o e. absurd (none-ne-some _ e), λ r c o e. absurd (none-ne-some _ e));
  }
  Reach-Inv (later r m) (w, t) = Step-Inv m t (Reach-Inv r w)
