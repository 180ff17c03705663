-- ===== src/Lock/Moves.antt =====
-- A move of a call of withRecordLock (shared/companion/record-lock.mjs) leads to a place where what holds
-- there holds.
use mathlib.Core.Path.{subst}
use claude_code_fusion.Common.{
  false-ne-true, ℕ, suc, ◌≡◌, refl, sym, Bool, true, Option, none, some, arith,
}
use claude_code_fusion.Lock.Identity.{Table, Owner, lock_owner_was_replaced, Runs, replaced-gone}
use claude_code_fusion.Lock.Disk.{
  Claim, Slot, Slot-discrete, Disk, update, update_same, link_lock, unlink_lock, put_owner,
  drop_owner, mark_released, set_slot, set_claimer, lock_targets_token-lock,
  slot_targets_token-slots, read_lock_record-owners, read_slot_record-claimers,
}
use claude_code_fusion.Lock.Claims.{Acquire, Reclaim}
use claude_code_fusion.Lock.System.{Move, IsTight}
use claude_code_fusion.Lock.Calls.{
  Wait, Release, Pc, Offer, first, retaken, slept, Outcome, lost, thrown, missing, removed, refused,
  ended,
}
use claude_code_fusion.Lock.Chain.{View, Gone, Chain}
use claude_code_fusion.Lock.Facts.{
  Known, Walked, Claims, Confirmed, Past, PastIf, Fits, Gone-kept, Walked-kept, Past-kept,
  PastIf-kept,
}
use claude_code_fusion.Lock.Frames.{seen, place-Frame, reap-Frame, unhook-Frame, clean-Frame}

module _ (owner : ℕ → Owner) where
  -- What a directory says of its owner.
  abbrev pub Listed : (ℕ → Bool) → ℕ → Owner → Type 0
  Listed begun t o = (o ≡ owner t) × (begun t ≡ true)

  Known-Gone :
      (v : View) (t : ℕ) (o : Owner) (r1 r2 : Bool)
      → Known owner v t o
      → lock_owner_was_replaced v.table r1 r2 o ≡ true
      → Gone owner v t
  Known-Gone v t o r1 r2 k replaced = record {
    was_begun = k.was_begun;
    stopped = λ r. false-ne-true (
        replaced-gone v.table r1 r2 o k.valid replaced
          (subst (λ (x : Owner). Runs v.table x) (sym k.named) r));
  }

  refused-Fits : (v : View) (i : ℕ) (o : Offer) → Fits owner v i (refused o)
  unfolding refused
  refused-Fits v i first = tt
  refused-Fits v i retaken = tt
  refused-Fits v i slept = tt

  ended-Fits :
      (v : View) (i : ℕ) (e : Outcome) (t : ℕ) → PastIf owner v e t → Fits owner v i (ended e t)
  unfolding ended
  ended-Fits v i lost t k = tt
  ended-Fits v i thrown t k = tt
  ended-Fits v i missing t k = tt
  ended-Fits v i removed t k = k

  module _ (table : Table) (begun : ℕ → Bool) (i : ℕ) (d : Disk) (run : Runs table (owner i)) where
    abbrev now : View
    now = seen table begun d

    placed :
        (s : Slot) (c : Claim)
        → Walked owner now s
        → c.maker ≡ i
        → d.slots s ≡ none
        → Claims owner (record now { slots = update Slot-discrete s (some c) d.slots }) i s c
    placed s c k own free = record {
      own = own;
      walked =
          Walked-kept owner (place-Frame owner table begun d i (suc i) run (omega arith) s c free) s
            k;
      kept = λ r l. update_same Slot-discrete s (some c) d.slots;
    }

    passed :
        (s : Slot) (c : Claim)
        → Walked owner now s
        → Gone owner now c.maker
        → d.slots s ≡ some c
        → Walked owner now (record { target = s.target; behind = some c })
    unfolding Chain
    passed s c k g at = record {
      gone = k.gone;
      here = λ l. let (n, p) = k.here l in (suc n, (s.behind, c, p, at, g, refl));
    }

    taken :
        (s : Slot) (c : Claim)
        → Confirmed owner now i s c
        → Claims owner (record now { lock = none }) i s c
          × Past owner (record now { lock = none }) s.target
    taken s c k = (
      record {
        own = k.claims.own;
        walked = record { gone = gone; here = λ l. absurd (empty l) };
        kept = λ r l. absurd (empty l);
      },
      record { gone = gone; past = λ l. empty l },
    )
      where
        gone : Gone owner (record now { lock = none }) s.target
        gone =
            Gone-kept owner (reap-Frame owner table begun d i (suc i) run (omega arith) s c k)
              s.target k.claims.walked.gone

        empty : {t : ℕ} → ◌≡◌ {A = Option ℕ} none (some t) → ⊥
        empty l = cc

    pub Move-Fits :
        {p : Pc} {d' : Disk} {p' : Pc}
        → ((t : ℕ) (o : Owner) → d.owners t ≡ some o → Listed begun t o)
        → ((s : Slot) (c : Claim) (o : Owner) → d.claimers s c ≡ some o → Listed begun c.maker o)
        → Fits owner now i p
        → (m : Move table i (owner i) d p d' p') → IsTight m
        → Fits owner (seen table begun d') i p'
    unfolding link_lock unlink_lock put_owner drop_owner mark_released set_slot set_claimer Chain
    Move-Fits li cl k (Move.waits (Wait.publishes free)) w = λ r. refl
    Move-Fits li cl k (Move.waits (Wait.finds_taken {o} l)) w = refused-Fits _ i o
    Move-Fits li cl k (Move.waits (Wait.reads_record {t} {o} e)) w =
        let (at, valid) = read_lock_record-owners d t o e in
        let (named, begins) = li t o at in
        record { named = named; valid = valid; was_begun = begins }
    Move-Fits li cl k (Move.reclaims (Reclaim.suspects {t} {o} r1 r2 e)) w =
        Known-Gone now t o r1 r2 k e
    Move-Fits li cl k (Move.acquires (Acquire.target_kept {t} e)) w = record {
      gone = k;
      here = λ l. (0, start t);
    }
      where
        start : (t : ℕ) → Chain owner now t 0 none
        start t = refl
    Move-Fits li cl k (Move.acquires (Acquire.walk_kept e)) w = k
    Move-Fits li cl k (Move.acquires (Acquire.looks_empty e)) w = k
    Move-Fits li cl k (Move.acquires (Acquire.looks_found {s} {c} {o} e)) w =
        let (at, valid) = read_slot_record-claimers d s c o e in
        let (named, begins) = cl s c o at in
        (k, record { named = named; valid = valid; was_begun = begins })
    Move-Fits li cl k (Move.acquires (Acquire.slot_free e)) w = k
    Move-Fits li cl k (Move.acquires (Acquire.draws e)) w = (k, e)
    Move-Fits li cl k (Move.acquires (Acquire.links {s} {c} free)) w = placed s c k.0 k.1 free
    Move-Fits li cl k (Move.acquires (Acquire.link_taken e)) w = k.0
    Move-Fits li cl k (Move.acquires (Acquire.confirm_lost e)) w = (k, tt)
    Move-Fits li cl k (Move.acquires (Acquire.confirms {s} e)) w = record {
      claims = k;
      still = λ r. lock_targets_token-lock d s.target e;
    }
    Move-Fits li cl k (Move.acquires (Acquire.found_kept e)) w = k
    Move-Fits li cl k (Move.acquires (Acquire.match_kept e)) w = k
    Move-Fits li cl k (Move.acquires (Acquire.claim_passed {s} {c} {o} r1 r2 e unseen)) w =
        passed s c k.0 (Known-Gone now c.maker o r1 r2 k.1 e) (slot_targets_token-slots d s c w)
    Move-Fits li cl k (Move.reclaims (Reclaim.current_lost e)) w = (k.claims, tt)
    Move-Fits li cl k (Move.reclaims (Reclaim.current_kept e)) w = k
    Move-Fits li cl k (Move.reclaims (Reclaim.weigh_lost e)) w = (k.claims, tt)
    Move-Fits li cl k (Move.reclaims (Reclaim.weigh_kept e)) w = k
    Move-Fits li cl k (Move.reclaims (Reclaim.weigh_spared r1 r2 e)) w = (k.claims, tt)
    Move-Fits li cl k (Move.reclaims (Reclaim.weigh_passed r1 r2 e)) w = k
    Move-Fits li cl k (Move.reclaims (Reclaim.reaps {s} {c} l)) w = taken s c k
    Move-Fits li cl k (Move.reclaims (Reclaim.reap_missing e)) w = (k.claims, tt)
    Move-Fits li cl k (Move.reclaims Reclaim.reap_throws) w = (k.claims, tt)
    Move-Fits li cl k (Move.reclaims Reclaim.buries) w = k
    Move-Fits li cl k (Move.releases (Release.drop_lost {e} {s} _)) w =
        ended-Fits _ i e s.target k.1
    Move-Fits li cl k (Move.releases (Release.drop_kept _)) w = k
    Move-Fits li cl k (Move.releases (Release.unhooks {e} {s} {c} at)) w =
        PastIf-kept owner (unhook-Frame owner table begun d i (suc i) run (omega arith) s c k.0) e
          s.target k.1
    Move-Fits li cl k (Move.releases (Release.unhook_missing {e} {s} _)) w =
        ended-Fits _ i e s.target k.1
    Move-Fits li cl k (Move.releases (Release.drops {e} {s})) w = ended-Fits _ i e s.target k
    Move-Fits li cl k (Move.reclaims (Reclaim.cleans_slot {t} s e)) w =
        Past-kept owner
          (clean-Frame owner table begun d i (suc i) run (omega arith) s
            (subst (λ (x : ℕ). Past owner now x) (sym e) k))
          t k
    Move-Fits li cl k (Move.reclaims (Reclaim.cleans_claimer s c e)) w = k
    Move-Fits li cl k (Move.releases Release.returns) w = k
    Move-Fits li cl k (Move.releases (Release.release_kept e)) w = k
    Move-Fits li cl k _ w = tt
