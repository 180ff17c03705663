-- ===== src/Args/Parse.antt =====
-- shared/companion/args.mjs, `parseArgs`.
use claude_code_fusion.Common.{
  Bool, true, false, not, ◌&&◌, ◌||◌, Option, none, some, List, [], ◌∷◌, ◌++◌, ltb, if◌then◌else◌,
  length, head?,
}
use claude_code_fusion.Common.Text.{Text, codes, text_eq, has, starts_with}
use claude_code_fusion.Args.Config.{
  option_code, Config, OptionValue, flag, text, Options, unknown_short, invalid_boolean,
  missing_value, unknown_option, Result, ok, err, ◌>>=◌, set_option, canonical, has_alias,
  unquote_option_value, OptionToken, split_option, is_known_option_token, dashes, dash,
}

-- The loop's variables. `skip` says that the last round advanced the index once more.
pub record Parsing : Type 0 where
  pub options : Options
  pub positionals : List Text
  pub passthrough : Bool
  pub positional_started : Bool
  pub skip : Bool

pub record Parsed : Type 0 where
  pub options : Options
  pub positionals : List Text

abbrev pub start : Parsing
start = record {
  options = [];
  positionals = [];
  passthrough = false;
  positional_started = false;
  skip = false;
}

abbrev pub add_positional : Text → Parsing → Parsing
add_positional token s = record s {
  positionals = s.positionals ++ token ∷ [];
  positional_started = true;
}

abbrev pub assign : Text → OptionValue → Parsing → Parsing
assign key v s = record s { options = set_option key v s.options }

abbrev pub boolean_value : Text → Option Text → Result Bool
boolean_value raw_key none = ok true
boolean_value raw_key (some v) =
    if text_eq v (codes "true")
    then ok true
    else if text_eq v (codes "false")
    then ok false
    else err (invalid_boolean raw_key v)

unfoldable pub boolean_option : Config → OptionToken → Result Bool
boolean_option cfg o =
    if not o.long && ltb 1 (length o.raw) && not (has_alias cfg o.raw)
    then err (unknown_short o.raw)
    else boolean_value o.raw_key o.inline_value

-- The value of an option, and whether it is the next token.
abbrev pub value_of_next : Config → OptionToken → Option Text → Result (Text × Bool)
value_of_next cfg o none = err (missing_value o.long o.raw_key)
value_of_next cfg o (some n) =
    let v = unquote_option_value n in
    if is_known_option_token cfg v then err (missing_value o.long o.raw_key) else ok (v, true)

abbrev pub value_of : Config → OptionToken → Option Text → Option Text → Result (Text × Bool)
value_of cfg o (some v) next = ok (v, false)
value_of cfg o none next = value_of_next cfg o next

unfoldable pub value_option : Config → OptionToken → Option Text → Result (Text × Bool)
value_option cfg o next = value_of cfg o o.inline_value next

unfoldable pub parse_option : Config → Parsing → Text → Option Text → Result Parsing
parse_option cfg s token next =
    let o = split_option token in
    let key = canonical cfg o.raw_key in
    if has cfg.boolean_options key
    then (do b ← boolean_option cfg o; ok (assign key (flag b) s))
    else if has cfg.value_options key
    then (do
      (v, skip) ← value_option cfg o next
      ok (record (assign key (text v) s) { skip = skip }))
    else err (unknown_option token)

-- The test in front of the options: the token is taken as it stands.
unfoldable pub is_verbatim : Config → Bool → Bool → Text → Bool
is_verbatim cfg passthrough started token =
    passthrough || (cfg.options_before_positionals && started) || text_eq token dash

-- One round of the loop.
unfoldable pub parse_token : Config → Parsing → Text → Option Text → Result Parsing
parse_token cfg s token next =
    if s.skip
    then ok (record s { skip = false })
    else if is_verbatim cfg s.passthrough s.positional_started token
    then ok (add_positional token s)
    else if text_eq token dashes
    then ok (record s { passthrough = true })
    else if not (starts_with dash token)
    then ok (add_positional token s)
    else parse_option cfg s token next

unfoldable pub parse_from : Config → Parsing → List Text → Result Parsing
parse_from cfg s [] = ok s
parse_from cfg s (token ∷ rest) = do
  s' ← parse_token cfg s token (head? rest)
  parse_from cfg s' rest

unfoldable pub parse_args : Config → List Text → Result Parsed
parse_args cfg argv = do
  s ← parse_from cfg start argv
  ok (record { options = s.options; positionals = s.positionals })

unfoldable pub parse_code : Unit {0}
unfolding option_code boolean_option value_option parse_option is_verbatim parse_token parse_from
    parse_args
parse_code = tt
