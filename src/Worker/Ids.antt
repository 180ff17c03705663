-- ===== src/Worker/Ids.antt =====
-- plugins/fusion/scripts/lib/worker-state.mjs: lists of job ids as sets.
use mathlib.Core.Path.{subst}
use claude_code_fusion.Common.{
  ◌≡◌, refl, sym, Bool, true, false, not, ◌&&◌, ◌||◌, List, [], ◌∷◌, ◌++◌, arith, keep, inl, inr,
  Bool-cases,
}
use claude_code_fusion.Common.Text.{Text, text_eq, text_eq_refl, text_eq_iff, has}
use claude_code_fusion.Worker.Reopen.{distinct}

pub has-append : (xs ys : List Text) (t : Text) → has (xs ++ ys) t ≡ has xs t || has ys t
unfolding has
has-append [] ys t = refl
has-append (x ∷ xs) ys t = ground (arith, has-append xs ys t)

pub has-keep : (p : Text → Bool) (xs : List Text) (t : Text) → has (keep p xs) t ≡ has xs t && p t
unfolding has
has-keep p [] t = refl
has-keep p (x ∷ xs) t = elim (Bool-cases (text_eq x t)) [
  | inl y ↦
      subst (λ u. has (keep p (u ∷ xs)) t ≡ has (u ∷ xs) t && p t) (sym ((text_eq_iff x t).0 y))
        (ground (arith, has-keep p xs t, text_eq_refl t))
  | inr n ↦ ground (arith, has-keep p xs t, n)
]

has-distinct :
    (seen xs : List Text) (t : Text) → has (distinct seen xs) t ≡ has xs t && not (has seen t)
unfolding has distinct
has-distinct seen [] t = refl
has-distinct seen (x ∷ xs) t = elim (Bool-cases (text_eq x t)) [
  | inl y ↦
      subst (λ u. has (distinct seen (u ∷ xs)) t ≡ has (u ∷ xs) t && not (has seen t))
        (sym ((text_eq_iff x t).0 y))
        (ground (arith, has-distinct seen xs t, has-distinct (t ∷ seen) xs t, text_eq_refl t))
  | inr n ↦ ground (arith, has-distinct seen xs t, has-distinct (x ∷ seen) xs t, n)
]

pub has-distinct_all : (xs : List Text) (t : Text) → has (distinct [] xs) t ≡ has xs t
unfolding has
has-distinct_all xs t = ground (arith, has-distinct [] xs t)

-- No id stands in the list twice.
abbrev pub NoRepeat : List Text → Type 0
NoRepeat [] = Unit
NoRepeat (x ∷ xs) = (has xs x ≡ false) × NoRepeat xs

pub distinct-NoRepeat : (seen xs : List Text) → NoRepeat (distinct seen xs)
unfolding distinct
distinct-NoRepeat seen [] = tt
distinct-NoRepeat seen (x ∷ xs) = elim (Bool-cases (has seen x)) [
  | inl y ↦ rw y (distinct-NoRepeat seen xs)
  | inr n ↦ rw n (fresh, distinct-NoRepeat (x ∷ seen) xs)
]
  where
    fresh : has (distinct (x ∷ seen) xs) x ≡ false
    fresh = unfold has in ground (arith, has-distinct (x ∷ seen) xs x, text_eq_refl x)

pub append-NoRepeat :
    (xs ys : List Text)
    → NoRepeat xs
    → NoRepeat ys
    → ((t : Text) → has ys t ≡ true → has xs t ≡ false)
    → NoRepeat (xs ++ ys)
append-NoRepeat [] ys hx hy apart = hy
append-NoRepeat (x ∷ xs) ys (new, hx) hy apart = (first, append-NoRepeat xs ys hx hy rest)
  where
    rest : (t : Text) → has ys t ≡ true → has xs t ≡ false
    rest t h = let a = apart t h in unfold has in ground arith

    first : has (xs ++ ys) x ≡ false
    first = elim (Bool-cases (has ys x)) [
      | inl y ↦ let a = apart x y in unfold has in ground (arith, text_eq_refl x)
      | inr n ↦ ground (arith, has-append xs ys x)
    ]
