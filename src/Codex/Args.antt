-- ===== src/Codex/Args.antt =====
-- plugins/codex/scripts/lib/args.mjs: `parseServiceTier` and `parseArgs`, which knows no aliases. Where its
-- lines are those of shared/companion/args.mjs, the definitions are those of Args too.
use claude_code_fusion.Common.{
  ℕ, Bool, true, false, not, ◌&&◌, ◌||◌, Option, none, some, List, [], ◌∷◌, ltb, leb, ◌==◌,
  if◌then◌else◌, length, head?, drop, every,
}
use claude_code_fusion.Common.Text.{Text, codes, text_eq, has, starts_with, index_of, is_empty}
use claude_code_fusion.Args.Config.{
  Config, Result, ok, err, ◌>>=◌, flag, text, unknown_short, missing_value, unknown_option,
  OptionToken, key_before, dash, dashes, split_option, unquote_option_value,
}
use claude_code_fusion.Args.Parse.{
  Parsing, Parsed, start, add_positional, assign, boolean_value, is_verbatim,
}

abbrev is_tier_unit : ℕ → Bool
is_tier_unit c = (leb b'a' c && leb c b'z') || (leb b'0' c && leb c b'9') || c == b'_' || c == b'-'

-- `/^[a-z][a-z0-9_-]{0,31}$/`.
unfoldable pub is_tier : Text → Bool
is_tier [] = false
is_tier (c ∷ cs) = leb b'a' c && leb c b'z' && every is_tier_unit cs && leb (length cs) 31

-- The outer `none` is the error; the inner one is `null`.
unfoldable pub parse_service_tier : Option Text → Option (Option Text)
parse_service_tier none = some (some (codes "priority"))
parse_service_tier (some t) =
    if text_eq t (codes "none") then some none else if is_tier t then some (some t) else none

abbrev pub is_declared : Config → Text → Bool
is_declared cfg key = has cfg.value_options key || has cfg.boolean_options key

-- The key of the token, be it long or short, stands in front of the first `=`.
abbrev pub key_of : Text → Text
key_of raw = key_before raw (index_of b'=' raw)

unfoldable pub known_option_token : Config → Text → Bool
known_option_token cfg t =
    if is_empty t || text_eq t dash || not (starts_with dash t)
    then false
    else is_declared cfg (key_of (if starts_with dashes t then drop 2 t else drop 1 t))

unfoldable pub boolean_option : OptionToken → Result Bool
boolean_option o =
    if not o.long && ltb 1 (length o.raw)
    then err (unknown_short o.raw)
    else boolean_value o.raw_key o.inline_value

abbrev pub value_of_next : Config → OptionToken → Option Text → Result (Text × Bool)
value_of_next cfg o none = err (missing_value o.long o.raw_key)
value_of_next cfg o (some n) =
    let v = unquote_option_value n in
    if known_option_token cfg v then err (missing_value o.long o.raw_key) else ok (v, true)

abbrev pub value_of : Config → OptionToken → Option Text → Option Text → Result (Text × Bool)
value_of cfg o (some v) next = ok (v, false)
value_of cfg o none next = value_of_next cfg o next

unfoldable pub value_option : Config → OptionToken → Option Text → Result (Text × Bool)
value_option cfg o next = value_of cfg o o.inline_value next

unfoldable pub parse_option : Config → Parsing → Text → Option Text → Result Parsing
parse_option cfg s token next =
    let o = split_option token in
    if has cfg.boolean_options o.raw_key
    then (do b ← boolean_option o; ok (assign o.raw_key (flag b) s))
    else if has cfg.value_options o.raw_key
    then (do
      (v, skip) ← value_option cfg o next
      ok (record (assign o.raw_key (text v) s) { skip = skip }))
    else err (unknown_option token)

-- One round of the loop.
unfoldable pub parse_token : Config → Parsing → Text → Option Text → Result Parsing
parse_token cfg s token next =
    if s.skip
    then ok (record s { skip = false })
    else if is_verbatim cfg s.passthrough s.positional_started token
    then ok (add_positional token s)
    else if text_eq token dashes
    then ok (record s { passthrough = true })
    else if not (starts_with dash token)
    then ok (add_positional token s)
    else parse_option cfg s token next

unfoldable pub parse_from : Config → Parsing → List Text → Result Parsing
parse_from cfg s [] = ok s
parse_from cfg s (token ∷ rest) = do
  s' ← parse_token cfg s token (head? rest)
  parse_from cfg s' rest

unfoldable pub parse_args : Config → List Text → Result Parsed
parse_args cfg argv = do
  s ← parse_from cfg start argv
  ok (record { options = s.options; positionals = s.positionals })
