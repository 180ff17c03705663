-- ===== src/Args/Tests.antt =====
-- Runs of the argument parsers of shared/companion/args.mjs, and their theorems at such inputs.
use claude_code_fusion.Common.{◌≡◌, refl, true, false, List, [], ◌∷◌, ◌++◌, map, All}
use claude_code_fusion.Common.Text.{Text, codes}
use claude_code_fusion.Args.Tokens.{raw_argument_tokens}
use claude_code_fusion.Args.Config.{
  Config, OptionValue, flag, text, ok, err, missing_value, split_prompt, dashes, option_code,
}
use claude_code_fusion.Args.Parse.{Parsed, parse_args, parse_code}
use claude_code_fusion.Args.Raw.{parse_raw_args, raw_code}
use claude_code_fusion.Args.Request.{raw_boolean_option_requested, request_code}
use claude_code_fusion.Args.Agreement.{parse_raw_args-parse_args, token_value}
use claude_code_fusion.Args.Spans.{raw_argument_tokens-Tiles}
use claude_code_fusion.Args.Tiling.{Tiles}
use claude_code_fusion.Args.Declared.{IsDeclared, parse_args-IsDeclared}
use claude_code_fusion.Args.RoundTrip.{encode, IsWritable, set_all, parse_args-encode}

abbrev demo : Config
demo = record {
  value_options = codes "model" ∷ codes "cwd" ∷ [];
  boolean_options = codes "json" ∷ codes "wait" ∷ [];
  alias_map = (codes "m", codes "model") ∷ [];
  options_before_positionals = false;
}

parse_demo :
    parse_args demo
      (codes "--json" ∷ codes "-m" ∷ codes "'gpt'" ∷ codes "fix" ∷ codes "--" ∷ codes "-x" ∷ [])
    ≡ ok (record {
      options = (codes "json", flag true) ∷ (codes "model", text (codes "gpt")) ∷ [];
      positionals = codes "fix" ∷ codes "-x" ∷ [];
    })
unfolding parse_code
parse_demo = refl

parse_missing :
    parse_args demo (codes "--model" ∷ codes "--json" ∷ [])
    ≡ err (missing_value true (codes "model"))
unfolding parse_code
parse_missing = refl

raw_demo :
    parse_raw_args demo (codes "--model='a b' --wait  fix  the \"bug\" ")
    ≡ ok (record {
      options = (codes "model", text (codes "a b")) ∷ (codes "wait", flag true) ∷ [];
      positionals = codes "fix" ∷ codes "the" ∷ codes "\"bug\"" ∷ [];
      positional_text = codes " fix  the \"bug\" ";
    })
unfolding raw_code
raw_demo = refl

raw_split : parse_raw_args demo (codes "fix --wait it") ≡ err split_prompt
unfolding raw_code
raw_split = refl

request_demo : raw_boolean_option_requested demo (codes "json") (codes "--model --x --json") ≡ true
unfolding request_code
request_demo = refl

parse_raw_args-parse_args_example :
    parse_args demo
      (map token_value (raw_argument_tokens (codes "--model='a b' --wait  fix  the \"bug\" ")))
    ≡ ok (record {
      options = (codes "model", text (codes "a b")) ∷ (codes "wait", flag true) ∷ [];
      positionals = codes "fix" ∷ codes "the" ∷ codes "\"bug\"" ∷ [];
    })
parse_raw_args-parse_args_example =
    parse_raw_args-parse_args demo (codes "--model='a b' --wait  fix  the \"bug\" ")
      (record {
        options = (codes "model", text (codes "a b")) ∷ (codes "wait", flag true) ∷ [];
        positionals = codes "fix" ∷ codes "the" ∷ codes "\"bug\"" ∷ [];
        positional_text = codes " fix  the \"bug\" ";
      })
      raw_demo

raw_argument_tokens-Tiles_example :
    Tiles 0 (codes " a 'b c'") (raw_argument_tokens (codes " a 'b c'"))
raw_argument_tokens-Tiles_example = raw_argument_tokens-Tiles (codes " a 'b c'")

abbrev parsed_demo : Parsed
parsed_demo = record {
  options = (codes "json", flag true) ∷ (codes "model", text (codes "gpt")) ∷ [];
  positionals = codes "fix" ∷ codes "-x" ∷ [];
}

parse_args-IsDeclared_example : All (IsDeclared demo) parsed_demo.options
parse_args-IsDeclared_example =
    parse_args-IsDeclared demo
      (codes "--json" ∷ codes "-m" ∷ codes "'gpt'" ∷ codes "fix" ∷ codes "--" ∷ codes "-x" ∷ [])
      parsed_demo parse_demo

abbrev written : List (Text × OptionValue)
written = (codes "json", flag false) ∷ (codes "model", text (codes "a b")) ∷ []

written-IsWritable : All (IsWritable demo) written
unfolding option_code
written-IsWritable = ((refl, refl, refl), ((refl, refl, (refl, refl, refl)), tt))

parse_args-encode_example :
    parse_args demo (map encode written ++ (dashes ∷ codes "--wait" ∷ []))
    ≡ ok (record { options = set_all written []; positionals = codes "--wait" ∷ [] })
parse_args-encode_example = parse_args-encode demo written (codes "--wait" ∷ []) written-IsWritable
