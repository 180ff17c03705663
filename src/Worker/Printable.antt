-- ===== src/Worker/Printable.antt =====
-- plugins/fusion/scripts/lib/worker-state.mjs, `validatedAcceptanceFields`: the reason that is kept fits
-- on one line.
use mathlib.Core.Path.{subst}
use mathlib.Core.List.{reverse, reverse-cons}
use claude_code_fusion.Common.{
  ℕ, zero, suc, ◌≤◌, ◌≡◌, refl, sym, true, false, Option, none, some, [], ◌∷◌, ◌++◌, arith, length,
  take, All, All-append, inl, inr, Bool-cases, every, not, &&-eq-true,
}
use claude_code_fusion.Common.Text.{Text, codes, is_space, is_blank, trim, trim_start}
use claude_code_fusion.Worker.Reasons.{
  replace_from, run_length, is_control, redacted, cleaned, safe_reason, api_key, github_key,
  xai_key, bearer_token,
}

abbrev IsPrintable : ℕ → Type 0
IsPrintable c = is_control c ≡ false

replace_from-All :
    (m : Text → ℕ) (r t : Text) (skip : ℕ)
    → All IsPrintable r
    → All IsPrintable t
    → All IsPrintable (replace_from m r skip t)
unfolding replace_from
replace_from-All m r [] skip h k = tt
replace_from-All m r (c ∷ cs) (suc skip) h (a, k) = replace_from-All m r cs skip h k
replace_from-All m r (c ∷ cs) zero h (a, k) = go (m (c ∷ cs)) (λ n. replace_from-All m r cs n h k)
  where
    go :
        (n : ℕ)
        → ((i : ℕ) → All IsPrintable (replace_from m r i cs))
        → All IsPrintable
            (elim n [ zero ↦ c ∷ replace_from m r zero cs | suc i ↦ r ++ replace_from m r i cs ])
    go zero more = (a, more zero)
    go (suc n) more = All-append IsPrintable r _ (h, more n)

-- A replacement at the front, by the length of the match.
abbrev replaced : (Text → ℕ) → Text → ℕ → Text → ℕ → Text
replaced m r c cs n = elim n [
  | zero ↦ c ∷ replace_from m r zero cs
  | suc i ↦ r ++ replace_from m r i cs
]

-- The control units are all replaced.
controls_replaced :
    (t : Text) (skip : ℕ)
    → All IsPrintable (replace_from (run_length is_control) (codes " ") skip t)
unfolding replace_from run_length
controls_replaced [] skip = tt
controls_replaced (c ∷ cs) (suc skip) = controls_replaced cs skip
controls_replaced (c ∷ cs) zero = elim (Bool-cases (is_control c)) [
  | inl y ↦
      subst (λ n. All IsPrintable (replaced (run_length is_control) (codes " ") c cs n))
        (sym (length_yes y)) (refl, controls_replaced cs (run_length is_control cs))
  | inr n ↦
      subst (λ k. All IsPrintable (replaced (run_length is_control) (codes " ") c cs k))
        (sym (length_no n)) (n, controls_replaced cs zero)
]
  where
    length_yes :
        is_control c ≡ true → run_length is_control (c ∷ cs) ≡ suc (run_length is_control cs)
    length_yes y = rw y refl

    length_no : is_control c ≡ false → run_length is_control (c ∷ cs) ≡ 0
    length_no n = rw n refl

every-All : (t : Text) → every (λ c. not (is_control c)) t ≡ true → All IsPrintable t
unfolding every
every-All [] h = tt
every-All (c ∷ cs) h =
    let (here, more) = &&-eq-true {a = not (is_control c)} h in
    (ground (arith, here), every-All cs more)

cleaned-All : (t : Text) → All IsPrintable (cleaned t)
unfolding cleaned every
cleaned-All t = replace_from-All bearer_token (codes "Bearer [redacted]") _ 0 bearer_printable (
    replace_from-All xai_key redacted _ 0 redacted_printable (
      replace_from-All github_key redacted _ 0 redacted_printable
        (replace_from-All api_key redacted _ 0 redacted_printable (controls_replaced t 0))))
  where
    redacted_printable : All IsPrintable redacted
    redacted_printable = every-All redacted refl

    bearer_printable : All IsPrintable (codes "Bearer [redacted]")
    bearer_printable = every-All (codes "Bearer [redacted]") refl

All-reverse : (t : Text) → All IsPrintable t → All IsPrintable (reverse t)
All-reverse [] a = tt
All-reverse (c ∷ cs) (a, more) =
    subst (All IsPrintable) (sym (reverse-cons c cs))
      (All-append IsPrintable (reverse cs) (c ∷ []) (All-reverse cs more, (a, tt)))

trim_start-All : (t : Text) → All IsPrintable t → All IsPrintable (trim_start t)
unfolding trim_start
trim_start-All [] a = tt
trim_start-All (c ∷ cs) (a, more) = elim (Bool-cases (is_space c)) [
  | inl y ↦ rw y (trim_start-All cs more)
  | inr n ↦ rw n (a, more)
]

trim-All : (t : Text) → All IsPrintable t → All IsPrintable (trim t)
unfolding trim
trim-All t a = All-reverse _ (trim_start-All _ (All-reverse _ (trim_start-All t a)))

take-All : (n : ℕ) (t : Text) → All IsPrintable t → All IsPrintable (take n t)
take-All zero t a = tt
take-All (suc n) [] a = tt
take-All (suc n) (c ∷ cs) (a, more) = (a, take-All n cs more)

take-length_le : (n : ℕ) (t : Text) → length (take n t) ≤ n
take-length_le zero t = omega arith
take-length_le (suc n) [] = omega arith
take-length_le (suc n) (c ∷ cs) = omega (arith, take-length_le n cs)

abbrev pub IsLine : Option Text → Type 0
IsLine none = Unit
IsLine (some u) = (length u ≤ 240) × All IsPrintable u

-- The reason that is kept with a verdict, if one is, has at most 240 units, and none of them is a control.
pub safe_reason-IsLine : (reason : Option Text) → IsLine (safe_reason reason)
unfolding safe_reason
safe_reason-IsLine none = tt
safe_reason-IsLine (some t) = elim (Bool-cases (is_blank t)) [
  | inl y ↦ rw y tt
  | inr n ↦ rw n (
    take-length_le 240 (trim (cleaned t)),
    take-All 240 (trim (cleaned t)) (trim-All (cleaned t) (cleaned-All t)),
  )
]
