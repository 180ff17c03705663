-- ===== src/Codex/Tests.antt =====
-- Runs of plugins/codex/scripts/lib/args.mjs, and the theorems at such inputs.
mod Jobs
mod History
use claude_code_fusion.Common.{◌≡◌, refl, true, false, none, some, List, [], ◌∷◌, map, every, any}
use claude_code_fusion.Common.Text.{Text, codes, text_eq, has, starts_with, index_of}
use claude_code_fusion.Args.Config.{Config, ok, err, flag, text, missing_value, unterminated_value}
use claude_code_fusion.Args.Parse.{Parsed, parse_code, is_verbatim}
use claude_code_fusion.Args.Parse
use claude_code_fusion.Codex.Args.{
  is_tier, parse_service_tier, known_option_token, boolean_option, value_option, parse_option,
  parse_token, parse_from, parse_args,
}
use claude_code_fusion.Args.Raw.{RawParsed, raw_code}
use claude_code_fusion.Args.Raw
use claude_code_fusion.Codex.Raw.{raw_option, raw_token, raw_from, parse_raw_args}
use claude_code_fusion.Codex.RawRefines.{parse_raw_args-plain}
use claude_code_fusion.Codex.Refines.{plain, IsNamed, parse_args-plain}

-- The functions that a run computes with.
codex_code : Unit {0}
unfolding parse_code text_eq has starts_with index_of any every is_tier parse_service_tier
    known_option_token boolean_option value_option parse_option parse_token parse_from parse_args
codex_code = tt

tier_is_read :
    map parse_service_tier
      (none ∷ some (codes "none") ∷ some (codes "flex") ∷ some (codes "Flex") ∷ [])
    ≡ some (some (codes "priority")) ∷ some none ∷ some (some (codes "flex")) ∷ none ∷ []
unfolding codex_code
tier_is_read = refl

abbrev declared : Config
declared = record {
  value_options = codes "m" ∷ codes "cwd" ∷ [];
  boolean_options = codes "json" ∷ [];
  alias_map = [];
  options_before_positionals = false;
}

-- A value that looks like a short option with a value: the one parser takes it, the other does not.
short_value_differs :
    Parse.parse_args declared (codes "--cwd" ∷ codes "-m=5" ∷ [])
    ≡ ok (record { options = (codes "cwd", text (codes "-m=5")) ∷ []; positionals = [] })
unfolding codex_code
short_value_differs = refl

short_value_is_missing :
    parse_args declared (codes "--cwd" ∷ codes "-m=5" ∷ []) ≡ err (missing_value true (codes "cwd"))
unfolding codex_code
short_value_is_missing = refl

abbrev argv : List Text
argv = codes "--json" ∷ codes "--cwd=a" ∷ codes "hi" ∷ []

abbrev read : Parsed
read = record {
  options = (codes "json", flag true) ∷ (codes "cwd", text (codes "a")) ∷ [];
  positionals = codes "hi" ∷ [];
}

argv_is_read : parse_args declared argv ≡ ok read
unfolding codex_code
argv_is_read = refl

-- The names that are declared have no equals sign.
declared-IsNamed : IsNamed declared
unfolding every index_of
declared-IsNamed = (refl, refl)

parse_args-plain_example : Parse.parse_args (plain declared) argv ≡ ok read
parse_args-plain_example = parse_args-plain declared argv read declared-IsNamed argv_is_read

abbrev line : Text
line = codes "--json --cwd 'a b' fix  this"

abbrev line_read : RawParsed
line_read = record {
  options = (codes "json", flag true) ∷ (codes "cwd", text (codes "a b")) ∷ [];
  positionals = codes "fix" ∷ codes "this" ∷ [];
  positional_text = codes "fix  this";
}

line_is_read : parse_raw_args declared line ≡ ok line_read
unfolding codex_code raw_code raw_option raw_token raw_from parse_raw_args
line_is_read = refl

-- An open quote is an error where it is in a value, and stands in a prompt.
open_quote_is_refused :
    parse_raw_args declared (codes "--cwd='a b") ≡ err (unterminated_value true (codes "cwd"))
unfolding codex_code raw_code raw_option raw_token raw_from parse_raw_args
open_quote_is_refused = refl

parse_raw_args-plain_example : Raw.parse_raw_args (plain declared) line ≡ ok line_read
parse_raw_args-plain_example =
    parse_raw_args-plain declared line line_read declared-IsNamed line_is_read
