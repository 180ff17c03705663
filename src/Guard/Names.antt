-- ===== src/Guard/Names.antt =====
-- plugins/fusion/scripts/lib/guard/dispatch.mjs: identifiers that are safe to keep, and lanes;
-- with the session ids of state.mjs.
use claude_code_fusion.Common.{
  ℕ, zero, suc, Bool, false, not, ◌&&◌, ◌||◌, Option, none, some, List, [], ◌∷◌, ◌++◌, leb, ◌==◌,
  if◌then◌else◌, or_else, length, map, every,
}
use claude_code_fusion.Common.Text.{Text, codes, text_eq, has, starts_with, is_empty}
use claude_code_fusion.Common.Regex.{
  Regex, unit, alt, star, at_start, at_end, lit, one_of, plus, then_all, opt, is_word, test, test_i,
}
use claude_code_fusion.Breaker.Report.{engine_ids}

-- `r{n,}`.
abbrev at_least : ℕ → Regex → Regex
at_least zero r = star r
at_least (suc n) r = then_all (r ∷ at_least n r ∷ [])

abbrev is_letter : ℕ → Bool
is_letter c = (leb b'A' c && leb c b'Z') || (leb b'a' c && leb c b'z')

abbrev is_decimal : ℕ → Bool
is_decimal c = leb b'0' c && leb c b'9'

-- The class `[A-Za-z0-9_-]`.
abbrev is_key_unit : ℕ → Bool
is_key_unit c = is_letter c || is_decimal c || c == b'_' || c == b'-'

-- The class `[:._/-]`.
abbrev is_divider : ℕ → Bool
is_divider c = c == b':' || c == b'.' || c == b'_' || c == b'/' || c == b'-'

-- `/^[A-Za-z0-9:_./-]+$/`.
abbrev identifier_pattern : Regex
identifier_pattern =
    then_all
      (at_start ∷ plus (unit (λ c. is_letter c || is_decimal c || is_divider c)) ∷ at_end ∷ [])

-- `/(?:^|[:._/-])(?:api[_-]?key|token|secret|password)(?:[:._/-]|$)/i`.
abbrev secret_word : Regex
secret_word = then_all (
    alt at_start (unit is_divider)
    ∷ alt
        (then_all
          (lit (codes "api") ∷ opt (unit (λ c. c == b'_' || c == b'-')) ∷ lit (codes "key") ∷ []))
        (one_of (codes "token" ∷ codes "secret" ∷ codes "password" ∷ []))
    ∷ alt (unit is_divider) at_end
    ∷ [])

-- `/(?:sk-|gh[pousr]_|github_pat_|xox[baprs]-|AKIA)[A-Za-z0-9_-]{8,}/`.
abbrev secret_key : Regex
secret_key = then_all (
    alt
      (one_of (
        map codes
          ("sk-" ∷ "ghp_" ∷ "gho_" ∷ "ghu_" ∷ "ghs_" ∷ "ghr_" ∷ "github_pat_" ∷ "AKIA" ∷ [])))
      (one_of (map codes ("xoxb-" ∷ "xoxa-" ∷ "xoxp-" ∷ "xoxr-" ∷ "xoxs-" ∷ [])))
    ∷ at_least 8 (unit is_key_unit)
    ∷ [])

-- `/[A-Za-z0-9_]{48,}/`.
abbrev long_word : Regex
long_word = at_least 48 (unit is_word)

unfoldable pub is_safe_identifier : Text → ℕ → Bool
is_safe_identifier t max_length =
    not (is_empty t)
    && leb (length t) max_length
    && test identifier_pattern t
    && not (test_i secret_word t)
    && not (test secret_key t)
    && not (test long_word t)

-- `normalizeSessionId`, with `/^[A-Za-z0-9][A-Za-z0-9._-]{0,127}$/`. A value that is no string is the
-- empty text here.
unfoldable pub is_session_id : Text → Bool
is_session_id [] = false
is_session_id (c ∷ cs) =
    (is_letter c || is_decimal c)
    && leb (length cs) 127
    && every (λ u. is_key_unit u || u == b'.') cs

-- The argument is `none` where the value is no string.
unfoldable pub sanitize_identifier : Option Text → ℕ → Option Text
sanitize_identifier none max_length = none
sanitize_identifier (some t) max_length = if is_safe_identifier t max_length then some t else none

unfoldable pub extract_tool_use_id : Option Text → Option Text
extract_tool_use_id id = sanitize_identifier id 200

abbrev builtin_lane : Text
builtin_lane = codes "builtin"

unfoldable pub normalize_lane : Text → Option Text
normalize_lane t =
    if text_eq t builtin_lane || has engine_ids t
    then some t
    else if starts_with (codes "fusion:") t
    then sanitize_identifier (some t) 80
    else none

-- The first engine whose id and a colon begin the type.
unfoldable pub engine_of : List Text → Text → Option Text
engine_of [] t = none
engine_of (e ∷ es) t = if starts_with (e ++ codes ":") t then some e else engine_of es t

abbrev lane_of_engine : Option Text → Text → Text
lane_of_engine (some e) t = e
lane_of_engine none t =
    if starts_with (codes "fusion:") t
    then or_else (normalize_lane t) builtin_lane
    else builtin_lane

unfoldable pub lane_for_subagent_type : Option Text → Text
lane_for_subagent_type none = builtin_lane
lane_for_subagent_type (some t) =
    if is_empty t then builtin_lane else lane_of_engine (engine_of engine_ids t) t
