-- ===== src/Streak/Targets.antt =====
-- plugins/fusion/scripts/lib/guard/read-streak.mjs, `splitReadSegments`: the units that are
-- passed over.
use mathlib.Core.Path.{subst}
use mathlib.Core.Option.{some-injective}
use claude_code_fusion.Common.{
  ℕ, zero, suc, ◌≡◌, refl, Bool, true, not, ◌&&◌, ◌||◌, some, [], ◌∷◌, ◌==◌, arith, inl, inr,
  Bool-cases, every, drop,
}
use claude_code_fusion.Common.Text.{Text, codes, starts_with}
use claude_code_fusion.Streak.Segments.{ends_word, redirect_target, target_length}

-- The units of a target, and the second unit of `&&`.
abbrev inert : ℕ → Bool
inert c = not (
    c == b'\\'
    || c == b'\''
    || c == b'"'
    || c == b'`'
    || c == b'$'
    || c == b'\n'
    || c == b'\r'
    || c == b'|'
    || c == b'>')

abbrev pub Skips : ℕ → Text → Type 0
Skips zero t = Unit
Skips (suc n) [] = Unit
Skips (suc n) (c ∷ rest) = (inert c ≡ true) × Skips n rest

starts_with-Skips :
    (p rest : Text)
    → starts_with p rest ≡ true
    → every inert p ≡ true
    → Skips (target_length p) rest
unfolding starts_with every
starts_with-Skips [] rest h e = tt
starts_with-Skips (u ∷ p) [] h e = tt
starts_with-Skips (u ∷ p) (c ∷ rest) h e =
    (ground arith, starts_with-Skips p rest (ground arith) (ground arith))

inert_null : every inert (codes "/dev/null") ≡ true
unfolding every
inert_null = refl

inert_one : every inert (codes "&1") ≡ true
unfolding every
inert_one = refl

pub redirect_target-Skips :
    (rest target : Text) → redirect_target rest ≡ some target → Skips (target_length target) rest
unfolding redirect_target
redirect_target-Skips rest target h =
    elim (Bool-cases (starts_with (codes "/dev/null") rest && ends_word (drop 9 rest))) [
      | inl y ↦
          subst (λ t. Skips (target_length t) rest) (some-injective _ target (rw y at h))
            (starts_with-Skips (codes "/dev/null") rest (ground arith) inert_null)
      | inr n ↦ elim (Bool-cases (starts_with (codes "&1") rest && ends_word (drop 2 rest))) [
        | inl y ↦
            subst (λ t. Skips (target_length t) rest) (some-injective _ target (rw (n, y) at h))
              (starts_with-Skips (codes "&1") rest (ground arith) inert_one)
        | inr m ↦ absurd (cc (rw (n, m) at h))
      ]
    ]
