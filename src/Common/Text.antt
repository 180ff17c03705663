-- ===== src/Common/Text.antt =====
-- JavaScript strings as lists of code units, with the string methods that the sources call.
use Prim.Native.Char.{code}
use Prim.Native.String.{String}
use Prim.Native.Nat.{ℕ, suc, ◌+◌, ◌-◌}
use mathlib.Core.Path.{◌≡◌, subst}
use mathlib.Core.Logic.{◌↔◌, inl, inr}
use mathlib.Core.Bool.{Bool, true, false, ◌&&◌, ◌||◌}
use mathlib.Core.List.{List, [], ◌∷◌, ◌++◌, map, reverse}
use mathlib.Core.Option.{Option, none, some}
use native.Mathlib.Omega.{arith}
use claude_code_fusion.Common.Lists.{take, drop, every}
use claude_code_fusion.Common.Tests.{leb, ◌==◌, if◌then◌else◌, Bool-cases, &&-eq-true}

abbrev pub Text : Type 0
Text = List ℕ

-- The code units of a literal; every literal of the development is in the basic plane.
abbrev pub codes : String → Text
codes String.[] = []
codes (String.◌∷◌ c s) = code c ∷ codes s

-- `===` on strings.
unfoldable pub text_eq : Text → Text → Bool
text_eq [] [] = true
text_eq (x ∷ xs) (y ∷ ys) = x == y && text_eq xs ys
text_eq _ _ = false

pub text_eq_iff : (a b : Text) → (text_eq a b ≡ true) ↔ (a ≡ b)
unfolding text_eq
text_eq_iff (x ∷ a) (y ∷ b) = ground (arith, text_eq_iff a b)
text_eq_iff _ _ = ground arith

pub text_eq_refl : (t : Text) → text_eq t t ≡ true
text_eq_refl t = (text_eq_iff t t).1 (λ i. t)

-- `new Set(words).has(text)`, `words.includes(text)`.
unfoldable pub has : List Text → Text → Bool
has [] t = false
has (x ∷ xs) t = text_eq x t || has xs t

pub has-every :
    (p : Text → Bool) (xs : List Text) (k : Text) → has xs k ≡ true → every p xs ≡ true → p k ≡ true
unfolding has every
has-every p [] k h a = absurd (ground arith)
has-every p (x ∷ xs) k h a =
    let (here, more) = &&-eq-true {a = p x} a in
    elim (Bool-cases (text_eq x k)) [
      | inl y ↦ subst (λ t. p t ≡ true) ((text_eq_iff x k).0 y) here
      | inr n ↦ has-every p xs k (subst (λ b. (b || has xs k) ≡ true) n h) more
    ]

unfoldable pub starts_with : Text → Text → Bool
starts_with [] t = true
starts_with (p ∷ ps) [] = false
starts_with (p ∷ ps) (c ∷ cs) = p == c && starts_with ps cs

-- `text.indexOf(unit)`, with `none` for -1.
unfoldable pub index_of : ℕ → Text → Option ℕ
index_of c [] = none
index_of c (x ∷ xs) =
    if x == c then some 0 else elim (index_of c xs) [ none ↦ none | some i ↦ some (suc i) ]

-- `text.slice(start, end)` for `0 <= start <= end`.
unfoldable pub slice : ℕ → ℕ → Text → Text
slice start end t = take (end - start) (drop start t)

-- The class `\s`, which is also what `trim` removes.
unfoldable pub is_space : ℕ → Bool
is_space c =
    (leb 9 c && leb c 13)
    || c == 32
    || c == 160
    || c == 5760
    || (leb 8192 c && leb c 8202)
    || c == 8232
    || c == 8233
    || c == 8239
    || c == 8287
    || c == 12288
    || c == 65279

unfoldable pub trim_start : Text → Text
unfolding is_space
trim_start [] = []
trim_start (c ∷ cs) = let rest = trim_start cs in if is_space c then rest else c ∷ cs

unfoldable pub trim : Text → Text
unfolding trim_start
trim t = reverse (trim_start (reverse (trim_start t)))

-- `toLowerCase` on the ASCII letters; other units are kept.
abbrev lower_unit : ℕ → ℕ
lower_unit c = if leb b'A' c && leb c b'Z' then c + 32 else c

unfoldable pub to_lower : Text → Text
to_lower = map lower_unit

-- `text.trim()` is falsy.
unfoldable pub is_blank : Text → Bool
unfolding is_space
is_blank [] = true
is_blank (c ∷ cs) = is_space c && is_blank cs

abbrev pub is_empty : Text → Bool
is_empty [] = true
is_empty (c ∷ cs) = false

-- `text.split(unit)`: the pieces between the separators, at least one.
abbrev push_head : ℕ → List Text → List Text
push_head c [] = (c ∷ []) ∷ []
push_head c (w ∷ ws) = (c ∷ w) ∷ ws

unfoldable pub split_on : ℕ → Text → List Text
split_on u [] = [] ∷ []
split_on u (c ∷ cs) = let rest = split_on u cs in if c == u then [] ∷ rest else push_head c rest

-- `text.split(/\s+/)` less the empty pieces.
unfoldable pub words_onto : Text → Text → List Text
unfolding is_space
words_onto [] [] = []
words_onto (w ∷ ws) [] = (w ∷ ws) ∷ []
words_onto [] (c ∷ cs) = words_onto (if is_space c then [] else c ∷ []) cs
words_onto (w ∷ ws) (c ∷ cs) =
    let ended = (w ∷ ws) ∷ words_onto [] cs in
    let longer = words_onto ((w ∷ ws) ++ c ∷ []) cs in if is_space c then ended else longer

abbrev pub words : Text → List Text
words = words_onto []
