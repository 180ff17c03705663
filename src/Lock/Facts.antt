-- ===== src/Lock/Facts.antt =====
-- What holds of a call of withRecordLock (shared/companion/record-lock.mjs) where it stands, and why it
-- goes on to hold while other calls move.
use claude_code_fusion.Common.{ℕ, zero, suc, ◌≡◌, ◌≢◌, true, Option, some}
use claude_code_fusion.Lock.Identity.{Owner, valid_owner, Runs}
use claude_code_fusion.Lock.Disk.{Claim, Slot}
use claude_code_fusion.Lock.Calls.{Pc, Outcome, lost, thrown, missing, removed}
use claude_code_fusion.Lock.Chain.{View, behind_slot, Gone, Chain}

module _ (owner : ℕ → Owner) where
  -- A record names the process of its call.
  pub record Known (v : View) (t : ℕ) (o : Owner) : Type 0 where
    pub named : o ≡ owner t
    pub valid : valid_owner o ≡ true
    pub was_begun : v.begun t ≡ true

  -- The walk along the claims on a dead lock is still on its chain.
  pub record Walked (v : View) (s : Slot) : Type 0 where
    pub gone : Gone owner v s.target
    pub here : v.lock ≡ some s.target → (n : ℕ) × Chain owner v s.target n s.behind

  -- Call `i` has the claim in a slot of the chain, for as long as the lock is there.
  pub record Claims (v : View) (i : ℕ) (s : Slot) (c : Claim) : Type 0 where
    pub own : c.maker ≡ i
    pub walked : Walked v s
    pub kept : Runs v.table (owner i) → v.lock ≡ some s.target → v.slots s ≡ some c

  -- The lock is `t`'s while the process of call `i` runs.
  abbrev pub Locked : View → ℕ → ℕ → Type 0
  Locked v i t = Runs v.table (owner i) → v.lock ≡ some t

  pub record Confirmed (v : View) (i : ℕ) (s : Slot) (c : Claim) : Type 0 where
    pub claims : Claims v i s c
    pub still : Locked v i s.target

  -- The lock of the dead call `t` is not there any more.
  pub record Past (v : View) (t : ℕ) : Type 0 where
    pub gone : Gone owner v t
    pub past : v.lock ≢ some t

  abbrev pub PastIf : View → Outcome → ℕ → Type 0
  PastIf v lost t = Unit
  PastIf v thrown t = Unit
  PastIf v missing t = Unit
  PastIf v removed t = Past v t

  abbrev pub Fits : View → ℕ → Pc → Type 0
  Fits v i (Pc.observing t o) = Known v t o
  Fits v i (Pc.targeting t) = Gone owner v t
  Fits v i (Pc.walking s seen) = Walked v s
  Fits v i (Pc.looking s seen) = Walked v s
  Fits v i (Pc.unlisted s seen) = Walked v s
  Fits v i (Pc.placing s seen) = Walked v s
  Fits v i (Pc.linking s seen c) = Walked v s × (c.maker ≡ i)
  Fits v i (Pc.confirming s c) = Claims v i s c
  Fits v i (Pc.found s seen c o) = Walked v s × Known v c.maker o
  Fits v i (Pc.matching s seen c o) = Walked v s × Known v c.maker o
  Fits v i (Pc.judging s seen c o) = Walked v s × Known v c.maker o
  Fits v i (Pc.claimed s c) = Confirmed v i s c
  Fits v i (Pc.weighing s c o) = Confirmed v i s c
  Fits v i (Pc.weighed s c o) = Confirmed v i s c
  Fits v i (Pc.poised s c) = Confirmed v i s c
  Fits v i (Pc.reaped s c) = Claims v i s c × Past v s.target
  Fits v i (Pc.dropping e s c) = Claims v i s c × PastIf v e s.target
  Fits v i (Pc.unhooking e s c) = Claims v i s c × PastIf v e s.target
  Fits v i (Pc.dropped e s c) = PastIf v e s.target
  Fits v i (Pc.cleaning t) = Past v t
  Fits v i Pc.inside = Locked v i i
  Fits v i Pc.releasing = Locked v i i
  Fits v i Pc.unlocking = Locked v i i
  Fits v i _ = Unit

  -- From `v` to `w`, nothing is lost that a call, which does not move itself, relies on.
  pub record Frame (v w : View) (i : ℕ) : Type 0 where
    pub stays : (t : ℕ) → v.begun t ≡ true → w.begun t ≡ true
    pub ran : (t : ℕ) → v.begun t ≡ true → Runs w.table (owner t) → Runs v.table (owner t)
    pub no_return : (t : ℕ) → Gone owner v t → w.lock ≡ some t → v.lock ≡ some t
    pub chain_kept :
        (s : Slot) (c : Claim)
        → Gone owner v s.target
        → w.lock ≡ some s.target
        → v.slots s ≡ some c
        → Gone owner v c.maker
        → w.slots s ≡ some c
    pub claim_kept :
        (s : Slot) (c : Claim)
        → Claims v i s c
        → Runs v.table (owner i)
        → w.lock ≡ some s.target
        → v.lock ≡ some s.target
        → w.slots s ≡ some c
    pub own_kept : Runs v.table (owner i) → v.lock ≡ some i → w.lock ≡ some i
    pub target_kept :
        (s : Slot) (c : Claim)
        → Confirmed v i s c
        → Runs v.table (owner i)
        → v.lock ≡ some s.target
        → w.lock ≡ some s.target

  module _ {v w : View} {i : ℕ} (f : Frame v w i) where
    pub Gone-kept : (t : ℕ) → Gone owner v t → Gone owner w t
    Gone-kept t g = record {
      was_begun = f.stays t g.was_begun;
      stopped = λ r. g.stopped (f.ran t g.was_begun r);
    }

    Known-kept : (t : ℕ) (o : Owner) → Known v t o → Known w t o
    Known-kept t o k = record {
      named = k.named;
      valid = k.valid;
      was_begun = f.stays t k.was_begun;
    }

    Chain-kept :
        (t : ℕ)
        → Gone owner v t
        → w.lock ≡ some t
        → (n : ℕ) (b : Option Claim) → Chain owner v t n b
        → Chain owner w t n b
    unfolding Chain
    Chain-kept t gone l zero b e = e
    Chain-kept t gone l (suc n) b (a, c, p, at, g, e) = (
      a,
      c,
      Chain-kept t gone l n a p,
      f.chain_kept (behind_slot t a) c gone l at g,
      Gone-kept c.maker g,
      e,
    )

    pub Walked-kept : (s : Slot) → Walked v s → Walked w s
    Walked-kept s k = record {
      gone = Gone-kept s.target k.gone;
      here = λ l.
          let (n, p) = k.here (f.no_return s.target k.gone l) in
          (n, Chain-kept s.target k.gone l n s.behind p);
    }

    pub Past-kept : (t : ℕ) → Past v t → Past w t
    Past-kept t k = record {
      gone = Gone-kept t k.gone;
      past = λ l. k.past (f.no_return t k.gone l);
    }

    pub PastIf-kept : (e : Outcome) (t : ℕ) → PastIf v e t → PastIf w e t
    PastIf-kept lost t k = tt
    PastIf-kept thrown t k = tt
    PastIf-kept missing t k = tt
    PastIf-kept removed t k = Past-kept t k

    module _ (begun : v.begun i ≡ true) where
      Claims-kept : (s : Slot) (c : Claim) → Claims v i s c → Claims w i s c
      Claims-kept s c k = record {
        own = k.own;
        walked = Walked-kept s k.walked;
        kept = λ r l. f.claim_kept s c k (f.ran i begun r) l (f.no_return s.target k.walked.gone l);
      }

      Confirmed-kept : (s : Slot) (c : Claim) → Confirmed v i s c → Confirmed w i s c
      Confirmed-kept s c k = record {
        claims = Claims-kept s c k.claims;
        still = λ r. let r' = f.ran i begun r in f.target_kept s c k r' (k.still r');
      }

      Own-kept : Locked v i i → Locked w i i
      Own-kept k r = let r' = f.ran i begun r in f.own_kept r' (k r')

      pub Fits-kept : (p : Pc) → Fits v i p → Fits w i p
      Fits-kept (Pc.observing t o) k = Known-kept t o k
      Fits-kept (Pc.targeting t) k = Gone-kept t k
      Fits-kept (Pc.walking s seen) k = Walked-kept s k
      Fits-kept (Pc.looking s seen) k = Walked-kept s k
      Fits-kept (Pc.unlisted s seen) k = Walked-kept s k
      Fits-kept (Pc.placing s seen) k = Walked-kept s k
      Fits-kept (Pc.linking s seen c) (k, m) = (Walked-kept s k, m)
      Fits-kept (Pc.confirming s c) k = Claims-kept s c k
      Fits-kept (Pc.found s seen c o) (k, m) = (Walked-kept s k, Known-kept c.maker o m)
      Fits-kept (Pc.matching s seen c o) (k, m) = (Walked-kept s k, Known-kept c.maker o m)
      Fits-kept (Pc.judging s seen c o) (k, m) = (Walked-kept s k, Known-kept c.maker o m)
      Fits-kept (Pc.claimed s c) k = Confirmed-kept s c k
      Fits-kept (Pc.weighing s c o) k = Confirmed-kept s c k
      Fits-kept (Pc.weighed s c o) k = Confirmed-kept s c k
      Fits-kept (Pc.poised s c) k = Confirmed-kept s c k
      Fits-kept (Pc.reaped s c) (k, p) = (Claims-kept s c k, Past-kept s.target p)
      Fits-kept (Pc.dropping e s c) (k, p) = (Claims-kept s c k, PastIf-kept e s.target p)
      Fits-kept (Pc.unhooking e s c) (k, p) = (Claims-kept s c k, PastIf-kept e s.target p)
      Fits-kept (Pc.dropped e s c) p = PastIf-kept e s.target p
      Fits-kept (Pc.cleaning t) k = Past-kept t k
      Fits-kept Pc.inside k = Own-kept k
      Fits-kept Pc.releasing k = Own-kept k
      Fits-kept Pc.unlocking k = Own-kept k
      Fits-kept Pc.outside k = tt
      Fits-kept (Pc.arriving _) k = tt
      Fits-kept (Pc.offering _) k = tt
      Fits-kept Pc.waiting k = tt
      Fits-kept Pc.pausing k = tt
      Fits-kept Pc.unlocked k = tt
      Fits-kept Pc.failing k = tt
      Fits-kept (Pc.leaving _) k = tt
      Fits-kept Pc.done k = tt
