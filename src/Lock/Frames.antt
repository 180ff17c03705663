-- ===== src/Lock/Frames.antt =====
-- A move of one call of withRecordLock (shared/companion/record-lock.mjs) leaves alone what the other
-- calls rely on.
use mathlib.Core.Path.{subst}
use claude_code_fusion.Common.{none-ne-some, ℕ, ◌≡◌, ◌≢◌, sym, ap, ◌∙◌, Bool, Option, none, some}
use claude_code_fusion.Lock.Identity.{Table, Owner, Runs}
use claude_code_fusion.Lock.Disk.{
  Claim, Slot, Slot-discrete, Disk, update, update_other, link_lock, unlink_lock, put_owner,
  drop_owner, mark_released, set_slot, set_claimer,
}
use claude_code_fusion.Lock.Claims.{Acquire, Reclaim}
use claude_code_fusion.Lock.System.{Move}
use claude_code_fusion.Lock.Calls.{Wait, Release, Pc}
use claude_code_fusion.Lock.Chain.{View, Gone}
use claude_code_fusion.Lock.Rivals.{Claims-rivals}
use claude_code_fusion.Lock.Facts.{Claims, Confirmed, Past, Locked, Fits, Frame}

abbrev pub seen : Table → (ℕ → Bool) → Disk → View
seen table begun d = record { lock = d.lock; slots = d.slots; table = table; begun = begun }

module _ (owner : ℕ → Owner) where
  module _ (table : Table) (begun : ℕ → Bool) (d : Disk) where
    abbrev now : View
    now = seen table begun d

    -- The link of the lock is the same, and no slot that matters loses its claim.
    slots-Frame :
        (slots : Slot → Option Claim) (j : ℕ)
        → ((s : Slot) (c : Claim)
            → Gone owner now s.target
            → d.lock ≡ some s.target
            → d.slots s ≡ some c
            → Gone owner now c.maker
            → slots s ≡ some c)
        → ((s : Slot) (c : Claim)
            → Claims owner now j s c
            → Runs table (owner j)
            → d.lock ≡ some s.target
            → slots s ≡ some c)
        → Frame owner now (record now { slots = slots }) j
    slots-Frame slots j chains claims = record {
      stays = λ t b. b;
      ran = λ t b r. r;
      no_return = λ t g l. l;
      chain_kept = chains;
      claim_kept = λ s c k r l l'. claims s c k r l;
      own_kept = λ r l. l;
      target_kept = λ s c k r l. l;
    }

    same-Frame : (j : ℕ) → Frame owner now now j
    same-Frame j = slots-Frame d.slots j (λ s c g l at g'. at) (λ s c k r l. k.kept r l)

    publish-Frame :
        (i j : ℕ)
        → d.lock ≡ none
        → Runs table (owner i)
        → Frame owner now (record now { lock = some i }) j
    publish-Frame i j free run = record {
      stays = λ t b. b;
      ran = λ t b r. r;
      no_return = λ t g l. absurd (back t g l);
      chain_kept = λ s c g l at g'. absurd (back s.target g l);
      claim_kept = λ s c k r l l'. absurd (taken l');
      own_kept = λ r l. absurd (taken l);
      target_kept = λ s c k r l. absurd (taken l);
    }
      where
        back : (t : ℕ) → Gone owner now t → some i ≡ some t → ⊥
        back t g l = let e : i ≡ t = cc in g.stopped (subst (λ (x : ℕ). Runs table (owner x)) e run)

        taken : {t : ℕ} → d.lock ≡ some t → ⊥
        taken l = cc

    -- The lock goes, and nobody who runs relies on it.
    unlink-Frame :
        (j : ℕ)
        → (Runs table (owner j) → d.lock ≡ some j → ⊥)
        → ((s : Slot) (c : Claim)
            → Confirmed owner now j s c
            → Runs table (owner j)
            → d.lock ≡ some s.target
            → ⊥)
        → Frame owner now (record now { lock = none }) j
    unlink-Frame j own rival = record {
      stays = λ t b. b;
      ran = λ t b r. r;
      no_return = λ t g l. absurd (none-ne-some _ l);
      chain_kept = λ s c g l at g'. absurd (none-ne-some _ l);
      claim_kept = λ s c k r l l'. absurd (none-ne-some _ l);
      own_kept = λ r l. absurd (own r l);
      target_kept = λ s c k r l. absurd (rival s c k r l);
    }

    module _ (i j : ℕ) (run : Runs table (owner i)) (other : i ≢ j) where
      own-unlink-Frame : Locked owner now i i → Frame owner now (record now { lock = none }) j
      own-unlink-Frame k = unlink-Frame j (λ r l. other (same (k run) l)) rival
        where
          same : {a b : ℕ} → d.lock ≡ some a → d.lock ≡ some b → a ≡ b
          same p q = cc

          rival :
              (s : Slot) (c : Claim)
              → Confirmed owner now j s c
              → Runs table (owner j)
              → d.lock ≡ some s.target
              → ⊥
          rival s c m r l =
              m.claims.walked.gone.stopped
                (subst (λ (x : ℕ). Runs table (owner x)) (same (k run) l) run)

      pub reap-Frame :
          (s : Slot) (c : Claim)
          → Confirmed owner now i s c
          → Frame owner now (record now { lock = none }) j
      reap-Frame s c k = unlink-Frame j own rival
        where
          same : {a b : ℕ} → d.lock ≡ some a → d.lock ≡ some b → a ≡ b
          same p q = cc

          own : Runs table (owner j) → d.lock ≡ some j → ⊥
          own r l =
              k.claims.walked.gone.stopped
                (subst (λ (x : ℕ). Runs table (owner x)) (same l (k.still run)) r)

          rival :
              (r : Slot) (x : Claim)
              → Confirmed owner now j r x
              → Runs table (owner j)
              → d.lock ≡ some r.target
              → ⊥
          rival r x m run_j l =
              other
                (Claims-rivals owner now i j s r c x k.claims m.claims run run_j (k.still run) l)

      -- A claim comes into a free slot.
      pub place-Frame :
          (s : Slot) (c : Claim)
          → d.slots s ≡ none
          → Frame owner now (record now { slots = update Slot-discrete s (some c) d.slots }) j
      place-Frame s c free =
          slots-Frame _ j (λ r x g l at g'. kept r x at)
            (λ r x k run_j l. kept r x (k.kept run_j l))
        where
          kept :
              (r : Slot) (x : Claim)
              → d.slots r ≡ some x
              → update Slot-discrete s (some c) d.slots r ≡ some x
          kept r x at =
              update_other Slot-discrete s (some c) d.slots r
                (λ e. none-ne-some _ (sym (subst (λ (z : Slot). d.slots z ≡ none) e free) ∙ at))
              ∙ at

      -- A call takes its own claim back.
      pub unhook-Frame :
          (s : Slot) (c : Claim)
          → Claims owner now i s c
          → Frame owner now (record now { slots = update Slot-discrete s none d.slots }) j
      unhook-Frame s c k = slots-Frame _ j chains claims
        where
          kept :
              (r : Slot) (x : Claim)
              → d.slots r ≡ some x
              → d.lock ≡ some r.target
              → (c ≡ x → ⊥)
              → update Slot-discrete s none d.slots r ≡ some x
          kept r x at l apart =
              update_other Slot-discrete s none d.slots r (λ e. apart (meets e)) ∙ at
            where
              meets : s ≡ r → c ≡ x
              meets e =
                  let l' : d.lock ≡ some s.target = l ∙ ap (λ (z : Slot). some z.target) (sym e) in
                  let both : some c ≡ some x = sym (k.kept run l') ∙ (ap d.slots e ∙ at) in cc both

          chains :
              (r : Slot) (x : Claim)
              → Gone owner now r.target
              → d.lock ≡ some r.target
              → d.slots r ≡ some x
              → Gone owner now x.maker
              → update Slot-discrete s none d.slots r ≡ some x
          chains r x g l at g' = kept r x at l (λ e. g'.stopped (
              subst (λ (y : ℕ). Runs table (owner y)) (sym k.own ∙ ap (λ (z : Claim). z.maker) e)
                run))

          claims :
              (r : Slot) (x : Claim)
              → Claims owner now j r x
              → Runs table (owner j)
              → d.lock ≡ some r.target
              → update Slot-discrete s none d.slots r ≡ some x
          claims r x m run_j l =
              kept r x (m.kept run_j l) l
                (λ e. other (sym k.own ∙ (ap (λ (z : Claim). z.maker) e ∙ m.own)))

      pub clean-Frame :
          (s : Slot)
          → Past owner now s.target
          → Frame owner now (record now { slots = update Slot-discrete s none d.slots }) j
      clean-Frame s k =
          slots-Frame _ j (λ r x g l at g'. kept r x at l)
            (λ r x m run_j l. kept r x (m.kept run_j l) l)
        where
          kept :
              (r : Slot) (x : Claim)
              → d.slots r ≡ some x
              → d.lock ≡ some r.target
              → update Slot-discrete s none d.slots r ≡ some x
          kept r x at l =
              update_other Slot-discrete s none d.slots r
                (λ e. k.past (l ∙ ap (λ (z : Slot). some z.target) (sym e)))
              ∙ at

      pub Move-Frame :
          {p : Pc} {d' : Disk} {p' : Pc}
          → Fits owner now i p
          → Move table i (owner i) d p d' p'
          → Frame owner now (seen table begun d') j
      unfolding link_lock unlink_lock put_owner drop_owner mark_released set_slot set_claimer
      Move-Frame k (Move.waits (Wait.publishes free)) = publish-Frame i j free run
      Move-Frame k (Move.acquires (Acquire.links {s} {seen} {c} free)) = place-Frame s c free
      Move-Frame k (Move.reclaims (Reclaim.reaps {s} {c} l)) = reap-Frame s c k
      Move-Frame k (Move.releases (Release.unhooks {e} {s} {c} at)) = unhook-Frame s c k.0
      Move-Frame k (Move.reclaims (Reclaim.cleans_slot s e)) =
          clean-Frame s (subst (λ (t : ℕ). Past owner now t) (sym e) k)
      Move-Frame k (Move.releases (Release.unlocks l)) = own-unlink-Frame k
      Move-Frame k _ = same-Frame j
