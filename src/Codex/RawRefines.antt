-- ===== src/Codex/RawRefines.antt =====
-- plugins/codex/scripts/lib/args.mjs, `parseRawArgs`, against that of shared/companion/args.mjs.
use claude_code_fusion.Common.{
  ℕ, ◌+◌, ◌≡◌, Bool, not, ◌||◌, Option, List, [], ◌∷◌, inl, inr, Bool-cases, head?,
}
use claude_code_fusion.Common.Text.{Text, text_eq, has, starts_with}
use claude_code_fusion.Args.Tokens.{Token, raw_argument_tokens}
use claude_code_fusion.Args.Config.{
  Config, ok, returned, canonical, alias, text, dash, dashes, split_option,
}
use claude_code_fusion.Args.Parse.{is_verbatim}
use claude_code_fusion.Args.Parse
use claude_code_fusion.Args.Raw.{
  RawParsing, RawParsed, start, assign, quote_open, value_text, next_info, finish_raw,
}
use claude_code_fusion.Args.Raw
use claude_code_fusion.Codex.Args
use claude_code_fusion.Codex.Raw.{raw_option, raw_token, raw_from, parse_raw_args}
use claude_code_fusion.Codex.Refines.{
  plain, IsNamed, not_ok, boolean_option_eq, value_option_ok, if_ok,
}

raw_option_ok :
    (cfg : Config) (s : RawParsing) (t : Token) (next : Option Token) {x : RawParsing}
    → IsNamed cfg
    → raw_option cfg s t next ≡ ok x
    → Raw.raw_option (plain cfg) s t next ≡ ok x
unfolding raw_option Raw.raw_option Args.value_option Parse.value_option canonical alias
raw_option_ok cfg s t next named h =
    let o = split_option t.value in
    let next' = next_info o.inline_value next in
    elim (Bool-cases (has cfg.boolean_options o.raw_key)) [
      | inl y ↦ rw (y, boolean_option_eq cfg o) (simp y at h)
      | inr n ↦ elim (Bool-cases (has cfg.value_options o.raw_key)) [
        | inl y ↦ elim (Bool-cases (t.unterminated_quote || quote_open next')) [
          | inl q ↦ absurd (not_ok (simp (n, y, q) at h))
          | inr q ↦
              let (v, done, e) =
                returned
                  (λ (p : Text × Bool). ok (record (assign o.raw_key (text p.0) s) { skip = p.1 }))
                  _ (simp (n, y, q) at h) in
              rw (n, y, q, value_option_ok cfg o o.inline_value (value_text next') named e) done
        ]
        | inr m ↦ absurd (not_ok (simp (n, m) at h))
      ]
    ]

raw_token_ok :
    (cfg : Config) (s : RawParsing) (index : ℕ) (t : Token) (next : Option Token) {x : RawParsing}
    → IsNamed cfg
    → raw_token cfg s index t next ≡ ok x
    → Raw.raw_token (plain cfg) s index t next ≡ ok x
unfolding raw_token Raw.raw_token is_verbatim
raw_token_ok cfg s index t next named h =
    if_ok s.skip _ _ _
      (if_ok (is_verbatim cfg s.passthrough s.positional_started t.value) _ _ _ (
        if_ok (text_eq t.value dashes) _ _ _
          (if_ok (not (starts_with dash t.value)) _ _ _ (raw_option_ok cfg s t next named))))
      h

raw_from_ok :
    (cfg : Config) (tokens : List Token) (s : RawParsing) (index : ℕ) {x : RawParsing}
    → IsNamed cfg
    → raw_from cfg s index tokens ≡ ok x
    → Raw.raw_from (plain cfg) s index tokens ≡ ok x
unfolding raw_from Raw.raw_from
raw_from_ok cfg [] s index named h = h
raw_from_ok cfg (t ∷ rest) s index named h =
    let (u, done, e) = returned (λ v. raw_from cfg v (index + 1) rest) _ h in
    rw (raw_token_ok cfg s index t (head? rest) named e)
      (raw_from_ok cfg rest u (index + 1) named done)

-- What the Codex companion's parser of raw strings accepts, the shared one accepts with no aliases, with the
-- same options and positionals and the same text of the prompt, if no option is declared under a name with
-- an equals sign.
pub parse_raw_args-plain :
    (cfg : Config) (input : Text) (x : RawParsed)
    → IsNamed cfg
    → parse_raw_args cfg input ≡ ok x
    → Raw.parse_raw_args (plain cfg) input ≡ ok x
unfolding parse_raw_args Raw.parse_raw_args
parse_raw_args-plain cfg input x named h =
    let tokens = raw_argument_tokens input in
    let (s, done, e) = returned (finish_raw input tokens) _ h in
    rw (raw_from_ok cfg tokens start 0 named e) done
