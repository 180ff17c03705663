-- ===== src/Args/Request.antt =====
-- shared/companion/args.mjs, `rawBooleanOptionRequested`: is a Boolean option asked for, found
-- without parsing the whole line and without an error.
use claude_code_fusion.Common.{
  Bool, true, false, not, ◌&&◌, ◌||◌, Option, none, some, List, [], ◌∷◌, ◌++◌, if◌then◌else◌, head?,
}
use claude_code_fusion.Common.Text.{Text, codes, text_eq, has, starts_with}
use claude_code_fusion.Args.Tokens.{token_code, Token, raw_argument_tokens}
use claude_code_fusion.Args.Config.{
  option_code, Config, canonical, split_option, is_known_option_token, dashes, dash,
}

pub record Request : Type 0 where
  pub requested : Bool
  pub skip : Bool

abbrev is_known_next : Config → Option Token → Bool
is_known_next cfg none = false
is_known_next cfg (some t) = is_known_option_token cfg t.value

abbrev lacks_value : Option Text → Bool
lacks_value none = true
lacks_value (some v) = false

-- The part of the round behind the test for a positional.
note_option : Config → Text → Request → Text → Option Token → Request
note_option cfg expected r token next =
    let o = split_option token in
    record {
      requested =
          if text_eq token (expected ++ codes "=false")
          then false
          else (r.requested || text_eq token expected || text_eq token (expected ++ codes "=true"));
      skip =
          lacks_value o.inline_value
          && has cfg.value_options (canonical cfg o.raw_key)
          && not (is_known_next cfg next);
    }

request_from : Config → Text → Request → List Token → Bool
request_from cfg expected r [] = r.requested
request_from cfg expected r (t ∷ rest) =
    let skipped = request_from cfg expected (record r { skip = false }) rest in
    let passed = request_from cfg expected r rest in
    let noted = request_from cfg expected (note_option cfg expected r t.value (head? rest)) rest in
    if r.skip
    then skipped
    else if text_eq t.value dashes
    then r.requested
    else if not (starts_with dash t.value) || text_eq t.value dash
    then (if cfg.options_before_positionals then r.requested else passed)
    else noted

pub raw_boolean_option_requested : Config → Text → Text → Bool
raw_boolean_option_requested cfg option input =
    request_from cfg (dashes ++ option) (record { requested = false; skip = false })
      (raw_argument_tokens input)

unfoldable pub request_code : Unit {0}
unfolding option_code token_code note_option request_from raw_boolean_option_requested
request_code = tt
