-- ===== src/Streak/Advisories.antt =====
-- plugins/fusion/scripts/lib/guard/read-streak.mjs, `isAdvisoryTurn`: when an advisory is given.
use native.Mathlib.Nat.{pow-succ', mul_assoc}
use claude_code_fusion.Common.{
  ℕ, zero, suc, ◌+◌, ◌*◌, ◌^◌, ◌<◌, ◌≡◌, refl, ap, sym, ◌∙◌, true, ◌&&◌, ◌==◌, arith, ◌↔◌, inl, inr,
  Bool-cases, leb,
}
use claude_code_fusion.Streak.Turns.{is_doubled, is_advisory_turn}

double_pow : (b k : ℕ) → b * 2 ^ suc k ≡ (b + b) * 2 ^ k
double_pow b k =
    ap (◌*◌ b) (pow-succ' 2 k) ∙ sym (mul_assoc b 2 (2 ^ k)) ∙ ap (λ x. x * 2 ^ k) (omega arith)

-- Enough fuel finds every double.
is_doubled_found : (fuel k b : ℕ) → k < fuel → is_doubled fuel b (b * 2 ^ k) ≡ true
unfolding is_doubled
is_doubled_found zero k b h = absurd (omega arith)
is_doubled_found (suc fuel) zero b h = ground arith
is_doubled_found (suc fuel) (suc k) b h =
    let rest = is_doubled_found fuel k (b + b) (omega arith) in
    rw (double_pow b k)
      (elim (Bool-cases (b == (b + b) * 2 ^ k)) [ inl y ↦ rw y refl | inr n ↦ rw n rest ])

is_doubled_sound : (fuel b n : ℕ) → is_doubled fuel b n ≡ true → (k : ℕ) × (n ≡ b * 2 ^ k)
unfolding is_doubled
is_doubled_sound zero b n h = absurd (cc)
is_doubled_sound (suc fuel) b n h = elim (Bool-cases (b == n)) [
  | inl y ↦ (0, ground arith)
  | inr n' ↦
      let (k, e) = is_doubled_sound fuel (b + b) n (ground arith) in
      (suc k, e ∙ sym (double_pow b k))
]

below_pow : (k : ℕ) → k < 2 ^ k
below_pow zero = omega arith
below_pow (suc k) = omega (arith, below_pow k, pow-succ' 2 k)

-- The counts at which an advisory is given are 5, 10, 20 and so on.
is_advisory_turn_iff : (n : ℕ) → (is_advisory_turn n ≡ true) ↔ ((k : ℕ) × (n ≡ 5 * 2 ^ k))
unfolding is_advisory_turn
is_advisory_turn_iff n = (λ h. is_doubled_sound n 5 n (ground arith), back)
  where
    back : (k : ℕ) × (n ≡ 5 * 2 ^ k) → (leb 5 n && is_doubled n 5 n) ≡ true
    back (k, e) =
        let found = is_doubled_found n k 5 (omega (arith, below_pow k)) in
        ground (arith, below_pow k, ap (is_doubled n 5) e)
