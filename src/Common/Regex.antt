-- ===== src/Common/Regex.antt =====
-- The regular expressions of the sources: syntax as data, and `pattern.test(text)`.
-- `matches r p s` lists the ways in which `r` can match at the front of `s` behind the unit `p`,
-- each by the unit before what is left and what is left. Only `test` is used, so the order in
-- which JavaScript tries the ways does not matter.
use Prim.Native.Nat.{ℕ, zero, suc}
use mathlib.Core.Bool.{Bool, true, false, not, ◌&&◌, ◌||◌}
use mathlib.Core.List.{List, [], ◌∷◌, ◌++◌}
use mathlib.Core.Option.{Option, none, some}
use claude_code_fusion.Common.Lists.{length, any}
use claude_code_fusion.Common.Tests.{leb, ◌==◌, if◌then◌else◌}
use claude_code_fusion.Common.Text.{Text, is_space, to_lower}

pub data Regex : Type 0 where
  empty : Regex
  unit : (ℕ → Bool) → Regex
  seq : Regex → Regex → Regex
  alt : Regex → Regex → Regex
  star : Regex → Regex
  at_start : Regex
  at_end : Regex
  word_boundary : Regex

abbrev Rest : Type 0
Rest = Option ℕ × Text

unfoldable pub is_word : ℕ → Bool
is_word c =
    (leb b'a' c && leb c b'z')
    || (leb b'A' c && leb c b'Z')
    || (leb b'0' c && leb c b'9')
    || c == b'_'

abbrev word_before : Option ℕ → Bool
word_before none = false
word_before (some c) = is_word c

abbrev word_after : Text → Bool
word_after [] = false
word_after (c ∷ cs) = is_word c

abbrev here_if : Bool → Rest → List Rest
here_if b s = if b then s ∷ [] else []

abbrev ends_line : ℕ → Bool
ends_line c = c == b'\n' || c == b'\r' || c == 8232 || c == 8233

-- Anchors; the flag is `m`.
abbrev start_ok : Bool → Option ℕ → Bool
start_ok multi none = true
start_ok multi (some c) = multi && ends_line c

abbrev end_ok : Bool → Text → Bool
end_ok multi [] = true
end_ok multi (c ∷ cs) = multi && ends_line c

unfoldable pub step_unit : (ℕ → Bool) → Text → List Rest
step_unit p [] = []
step_unit p (c ∷ cs) = here_if (p c) (some c, cs)

unfoldable pub bind : List Rest → (Rest → List Rest) → List Rest
bind [] f = []
bind (s ∷ ss) f = f s ++ bind ss f

-- Only a shorter rest is iterated, as an empty iteration ends the loop.
unfoldable pub shorter : ℕ → List Rest → List Rest
shorter n [] = []
shorter n ((p, s) ∷ ss) =
    let rest = shorter n ss in if leb n (length s) then rest else (p, s) ∷ rest

unfoldable pub iterate : ℕ → (Rest → List Rest) → Rest → List Rest
unfolding bind shorter
iterate zero f s = s ∷ []
iterate (suc n) f (p, s) = (p, s) ∷ bind (shorter (length s) (f (p, s))) (iterate n f)

unfoldable pub matches : Bool → Regex → Rest → List Rest
unfolding step_unit bind iterate is_word
matches m empty s = s ∷ []
matches m (unit p) (q, s) = step_unit p s
matches m (seq a b) s = bind (matches m a s) (matches m b)
matches m (alt a b) s = matches m a s ++ matches m b s
matches m (star a) (q, s) = iterate (suc (length s)) (matches m a) (q, s)
matches m at_start (q, s) = here_if (start_ok m q) (q, s)
matches m at_end (q, s) = here_if (end_ok m s) (q, s)
matches m word_boundary (q, s) =
    here_if (if word_before q then not (word_after s) else word_after s) (q, s)

abbrev pub found : List Rest → Bool
found [] = false
found (s ∷ ss) = true

unfoldable pub search_from : Bool → Regex → Option ℕ → Text → Bool
unfolding matches
search_from m r q [] = found (matches m r (q, []))
search_from m r q (c ∷ cs) = found (matches m r (q, c ∷ cs)) || search_from m r (some c) cs

-- `pattern.test(text)` with no flag, and with `m`.
unfoldable pub test : Regex → Text → Bool
unfolding search_from
test r s = search_from false r none s

unfoldable pub test_lines : Regex → Text → Bool
unfolding search_from
test_lines r s = search_from true r none s

-- With the flag `i`: the pattern is written in lower case.
unfoldable pub test_i : Regex → Text → Bool
unfolding test to_lower
test_i r s = test r (to_lower s)

unfoldable pub test_lines_i : Regex → Text → Bool
unfolding test_lines to_lower
test_lines_i r s = test_lines r (to_lower s)

-- Ways to write a pattern.
abbrev pub lit : Text → Regex
lit [] = empty
lit (c ∷ cs) = seq (unit (◌==◌ c)) (lit cs)

abbrev pub one_of : List Text → Regex
one_of [] = unit (λ _. false)
one_of (w ∷ []) = lit w
one_of (w ∷ v ∷ ws) = alt (lit w) (one_of (v ∷ ws))

abbrev pub opt : Regex → Regex
opt r = alt r empty

abbrev pub plus : Regex → Regex
plus r = seq r (star r)

abbrev pub then_all : List Regex → Regex
then_all [] = empty
then_all (r ∷ rs) = seq r (then_all rs)

abbrev pub digit : Regex
digit = unit (λ c. leb b'0' c && leb c b'9')

abbrev pub space : Regex
space = unit is_space

abbrev pub any_unit : Regex
any_unit = unit (λ c. not (ends_line c))

abbrev pub chars : Text → Regex
chars t = unit (λ c. any (◌==◌ c) t)

unfoldable pub regex_code : Unit {0}
unfolding test test_lines test_i test_lines_i matches step_unit bind iterate shorter search_from
    is_word is_space to_lower any
regex_code = tt
