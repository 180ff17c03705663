-- ===== src/Args/Tokens.antt =====
-- shared/companion/args.mjs, `rawArgumentTokens`: a raw command line is cut at white space, with
-- quotes that open at the start of a token or behind `=`, and backslash escapes.
use claude_code_fusion.Common.{
  ℕ, ◌+◌, Bool, true, false, not, ◌&&◌, ◌||◌, Option, none, some, List, [], ◌∷◌, ◌++◌, ◌==◌,
  if◌then◌else◌, is_some, length,
}
use claude_code_fusion.Common.Text.{Text, slice, is_space}

pub record Token : Type 0 where
  pub value : Text
  pub start : ℕ
  pub end : ℕ
  pub unterminated_quote : Bool

-- The loop's variables.
pub record Scanner : Type 0 where
  pub quote : Option ℕ
  pub escaping : Bool
  pub start : Option ℕ
  pub tokens : List Token

abbrev pub is_unit : Option ℕ → ℕ → Bool
is_unit none c = false
is_unit (some d) c = d == c

abbrev pub is_quote : ℕ → Bool
is_quote c = c == b'\'' || c == b'"'

-- The tail of the loop body, by the open quote; `b` is `start`, `prev` is `input[index - 1]`.
abbrev scan_quoted : Text → ℕ → ℕ → Option ℕ → ℕ → Scanner → Option ℕ → Scanner
scan_quoted input b i prev c s (some q) = if c == q then record s { quote = none } else s
scan_quoted input b i prev c s none =
    if (i == b || is_unit prev b'=') && is_quote c
    then record s { quote = some c }
    else if is_space c
    then record s {
      tokens =
          s.tokens
          ++ (record { value = slice b i input; start = b; end = i; unterminated_quote = false }
              ∷ []);
      start = none;
    }
    else s

abbrev pub scan_in : Text → ℕ → ℕ → Option ℕ → ℕ → Scanner → Scanner
scan_in input b i prev c s =
    if s.escaping
    then record s { escaping = false }
    else if c == b'\\' && not (is_unit s.quote b'\'')
    then record s { escaping = true }
    else scan_quoted input b i prev c s s.quote

abbrev scan_at : Text → ℕ → Option ℕ → ℕ → Scanner → Option ℕ → Scanner
scan_at input i prev c s (some b) = scan_in input b i prev c s
scan_at input i prev c s none =
    if is_space c then s else scan_in input i i prev c (record s { start = some i })

-- One round of the loop.
unfoldable pub scan_unit : Text → ℕ → Option ℕ → ℕ → Scanner → Scanner
scan_unit input i prev c s = scan_at input i prev c s s.start

abbrev pub last_token : Text → Scanner → Option ℕ → List Token
last_token input s none = []
last_token input s (some b) =
    record {
      value = slice b (length input) input;
      start = b;
      end = length input;
      unterminated_quote = is_some s.quote;
    }
    ∷ []

unfoldable pub scan_from : Text → ℕ → Option ℕ → Scanner → Text → List Token
scan_from input i prev s [] = s.tokens ++ last_token input s s.start
scan_from input i prev s (c ∷ cs) = scan_from input (i + 1) (some c) (scan_unit input i prev c s) cs

abbrev pub fresh : Scanner
fresh = record { quote = none; escaping = false; start = none; tokens = [] }

unfoldable pub raw_argument_tokens : Text → List Token
raw_argument_tokens input = scan_from input 0 none fresh input

unfoldable pub token_code : Unit {0}
unfolding scan_unit scan_from raw_argument_tokens slice is_space
token_code = tt
