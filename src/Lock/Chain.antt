-- ===== src/Lock/Chain.antt =====
-- The claims on the lock of a dead owner stand in a chain of slots. Whoever owns a claim and runs stands
-- at its end.
use mathlib.Core.Path.{subst}
use claude_code_fusion.Common.{
  ℕ, zero, suc, ◌+◌, ◌-◌, ◌<◌, ◌≡◌, sym, ap, ◌∙◌, Bool, true, Option, none, some, arith,
}
use native.Mathlib.Decide.{dec_lt}
use claude_code_fusion.Lock.Identity.{Table, Owner, Runs}
use claude_code_fusion.Lock.Disk.{Claim, Slot}

-- What the argument needs of a system: the lock, the slots, the processes, and which calls have begun.
pub record View : Type 0 where
  pub lock : Option ℕ
  pub slots : Slot → Option Claim
  pub table : Table
  pub begun : ℕ → Bool

abbrev pub behind_slot : ℕ → Option Claim → Slot
behind_slot t b = record { target = t; behind = b }

module _ (owner : ℕ → Owner) where
  -- Call `t` has begun and its process is gone, for good.
  pub record Gone (v : View) (t : ℕ) : Type 0 where
    pub was_begun : v.begun t ≡ true
    pub stopped : ¬ Runs v.table (owner t)

  -- The slot of lock `t` that stands behind claim `b` is the one after `n` claims of calls that are gone.
  unfoldable pub Chain : View → ℕ → ℕ → Option Claim → Type 0
  Chain v t zero b = b ≡ none
  Chain v t (suc n) b =
      (a : Option Claim) × (c : Claim) × Chain v t n a
      × (v.slots (behind_slot t a) ≡ some c)
      × Gone v c.maker
      × (b ≡ some c)

  Chain-unique : (v : View) (t n : ℕ) (a b : Option Claim) → Chain v t n a → Chain v t n b → a ≡ b
  unfolding Chain
  Chain-unique v t zero a b p q = p ∙ sym q
  Chain-unique v t (suc n) a b (x, c, p, at, g, e) (y, d, q, at', g', e') =
      let same = Chain-unique v t n x y p q in
      e ∙ (sym at ∙ (ap (λ (z : Option Claim). v.slots (behind_slot t z)) same ∙ (at' ∙ sym e')))

  -- In a longer chain, the slot where a shorter one ends has the claim of a call that is gone.
  Chain-longer :
      (v : View) (t n k : ℕ) (a b : Option Claim)
      → Chain v t n a
      → Chain v t (suc (k + n)) b
      → (c : Claim) × (v.slots (behind_slot t a) ≡ some c) × Gone v c.maker
  unfolding Chain
  Chain-longer v t n zero a b p (y, d, q, at, g, e) =
      let e0 : zero + n ≡ n = omega arith in
      let q' : Chain v t n y = subst (λ (m : ℕ). Chain v t m y) e0 q in
      (
        d,
        ap (λ (z : Option Claim). v.slots (behind_slot t z)) (Chain-unique v t n a y p q') ∙ at,
        g,
      )
  Chain-longer v t n (suc k) a b p (y, d, q, at, g, e) =
      let regroup : suc k + n ≡ suc (k + n) = omega arith in
      Chain-longer v t n k a y p (subst (λ (m : ℕ). Chain v t m y) regroup q)

  -- A claim of a call that runs is the last of every chain that leads to it.
  pub Chain-end :
      (v : View) (t n m : ℕ) (a b : Option Claim) (c d : Claim)
      → Chain v t n a
      → Chain v t m b
      → v.slots (behind_slot t a) ≡ some c
      → v.slots (behind_slot t b) ≡ some d
      → Runs v.table (owner c.maker)
      → Runs v.table (owner d.maker)
      → c ≡ d
  Chain-end v t n m a b c d p q at at' r r' = elim (dec_lt n m) [
    | yes l ↦ absurd (cut n m a b c p q at r l)
    | no nl ↦ elim (dec_lt m n) [
      | yes l ↦ absurd (cut m n b a d q p at' r' l)
      | no ml ↦
          let p' : Chain v t m a = subst (λ (x : ℕ). Chain v t x a) (omega arith) p in
          let same = Chain-unique v t m a b p' q in
          let e : some c ≡ some d =
            sym at ∙ (ap (λ (z : Option Claim). v.slots (behind_slot t z)) same ∙ at') in
          cc e
    ]
  ]
    where
      cut :
          (n m : ℕ) (a b : Option Claim) (c : Claim)
          → Chain v t n a
          → Chain v t m b
          → v.slots (behind_slot t a) ≡ some c
          → Runs v.table (owner c.maker)
          → n < m
          → ⊥
      cut n m a b c p q at r l =
          let q' : Chain v t (suc ((m - n - 1) + n)) b =
            subst (λ (x : ℕ). Chain v t x b) (omega arith) q in
          let (d, at', g) = Chain-longer v t n (m - n - 1) a b p q' in
          let same : c ≡ d = cc in
          g.stopped (subst (λ (x : Claim). Runs v.table (owner x.maker)) same r)
