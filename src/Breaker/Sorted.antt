-- ===== src/Breaker/Sorted.antt =====
-- plugins/fusion/scripts/breaker-check.mjs: `outcomes.sort` by the time of an outcome.
use mathlib.Core.List.{Perm}
use mathlib.Core.List.Perm
use claude_code_fusion.Common.{ℕ, ◌≤◌, inl, inr, List, [], ◌∷◌, arith, leb, All, Bool-cases}
use claude_code_fusion.Breaker.Latest.{Outcome, insert_outcome, sort_outcomes}

-- No outcome is later than one behind it.
abbrev InOrder : List Outcome → Type 0
InOrder [] = Unit
InOrder (o ∷ os) = All (λ p. o.timestamp ≤ p.timestamp) os × InOrder os

All-le :
    (a b : ℕ) (os : List Outcome)
    → a ≤ b
    → All (λ p. b ≤ p.timestamp) os
    → All (λ p. a ≤ p.timestamp) os
All-le a b [] h k = tt
All-le a b (o ∷ os) h k = (omega arith, All-le a b os h k.1)

insert_outcome-All {ℓ} :
    (P : Outcome → Type ℓ) (o : Outcome) (os : List Outcome)
    → P o
    → All P os
    → All P (insert_outcome o os)
unfolding insert_outcome
insert_outcome-All P o [] h k = (h, tt)
insert_outcome-All P o (p ∷ ps) h k = ground (arith, insert_outcome-All P o ps h k.1)

pub sort_outcomes-All {ℓ} :
    (P : Outcome → Type ℓ) (os : List Outcome) → All P os → All P (sort_outcomes os)
unfolding sort_outcomes
sort_outcomes-All P [] k = tt
sort_outcomes-All P (o ∷ os) k =
    insert_outcome-All P o (sort_outcomes os) k.0 (sort_outcomes-All P os k.1)

insert_outcome-InOrder :
    (o : Outcome) (os : List Outcome) → InOrder os → InOrder (insert_outcome o os)
unfolding insert_outcome
insert_outcome-InOrder o [] k = (tt, tt)
insert_outcome-InOrder o (p ∷ ps) k = elim (Bool-cases (leb o.timestamp p.timestamp)) [
  | inl y ↦ rw y ((ground arith, All-le o.timestamp p.timestamp ps (ground arith) k.0), k)
  | inr n ↦ rw n (
    insert_outcome-All (λ q. p.timestamp ≤ q.timestamp) o ps (ground arith) k.0,
    insert_outcome-InOrder o ps k.1,
  )
]

insert_outcome-perm : (o : Outcome) (os : List Outcome) → Perm (insert_outcome o os) (o ∷ os)
unfolding insert_outcome
insert_outcome-perm o [] = Perm.refl (o ∷ [])
insert_outcome-perm o (p ∷ ps) = elim (Bool-cases (leb o.timestamp p.timestamp)) [
  | inl y ↦ rw y (Perm.refl (o ∷ p ∷ ps))
  | inr n ↦ rw n (Perm.trans (Perm.cons p (insert_outcome-perm o ps)) (Perm.swap o p ps))
]

-- The outcomes are ordered by time, and none is lost or repeated.
sort_outcomes-InOrder :
    (os : List Outcome) → InOrder (sort_outcomes os) × Perm (sort_outcomes os) os
unfolding sort_outcomes
sort_outcomes-InOrder [] = (tt, Perm.refl [])
sort_outcomes-InOrder (o ∷ os) =
    let (s, p) = sort_outcomes-InOrder os in
    (
      insert_outcome-InOrder o (sort_outcomes os) s,
      Perm.trans (insert_outcome-perm o (sort_outcomes os)) (Perm.cons o p),
    )
