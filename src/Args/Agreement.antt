-- ===== src/Args/Agreement.antt =====
-- shared/companion/args.mjs: `parseRawArgs` against `parseArgs`, which repeat one grammar.
use claude_code_fusion.Common.{
  ℕ, ◌+◌, ◌≡◌, refl, ap, ◌∙◌, Option, some, List, [], ◌∷◌, ◌++◌, map, arith, length, length-append,
  head?, get_elem?,
}
use mathlib.Core.Path.{subst₂}
use mathlib.Core.List.{append_assoc}
use claude_code_fusion.Common.Text.{Text}
use claude_code_fusion.Args.Tokens.{Token, raw_argument_tokens}
use claude_code_fusion.Args.Config.{Config, ok, returned, split_option}
use claude_code_fusion.Args.Parse.{
  Parsing, value_option, parse_option, parse_token, parse_from, parse_args,
}
use claude_code_fusion.Args.Raw
use claude_code_fusion.Args.Raw.{
  RawParsing, RawParsed, value_text, next_info, values_at, raw_option, raw_token, raw_from,
  finish_raw, parse_raw_args, no_gap,
}

-- The state of `parseArgs` that a state of `parseRawArgs` stands for.
abbrev erase : List Token → RawParsing → Parsing
erase tokens r = record {
  options = r.options;
  positionals = values_at tokens r.positional_indexes;
  passthrough = r.passthrough;
  positional_started = r.positional_started;
  skip = r.skip;
}

abbrev pub token_value : Token → Text
token_value t = t.value

value_option_info :
    (cfg : Config) (t : Text) (next : Option Token)
    → value_option cfg (split_option t) (value_text (next_info (split_option t).inline_value next))
      ≡ value_option cfg (split_option t) (value_text next)
unfolding value_option
value_option_info cfg t next = ground arith

raw_option-parse_option :
    (cfg : Config) (tokens : List Token) (r : RawParsing) (t : Token) (next : Option Token)
    {r' : RawParsing}
    → raw_option cfg r t next ≡ ok r'
    → parse_option cfg (erase tokens r) t.value (value_text next) ≡ ok (erase tokens r')
unfolding raw_option parse_option
raw_option-parse_option cfg tokens r t next h = ground (arith, value_option_info cfg t.value next)

values_at-append :
    (tokens : List Token) (is js : List ℕ)
    → values_at tokens (is ++ js) ≡ values_at tokens is ++ values_at tokens js
values_at-append tokens [] js = refl
values_at-append tokens (i ∷ is) js = simp (values_at-append tokens is js, append_assoc)

values_at_one :
    (tokens : List Token) (i : ℕ) (t : Token)
    → get_elem? tokens i ≡ some t
    → values_at tokens (i ∷ []) ≡ t.value ∷ []
values_at_one tokens i t e = ground arith

values_at-add :
    (tokens : List Token) (is : List ℕ) (i : ℕ) (t : Token)
    → get_elem? tokens i ≡ some t
    → values_at tokens (is ++ i ∷ []) ≡ values_at tokens is ++ t.value ∷ []
values_at-add tokens is i t e =
    values_at-append tokens is (i ∷ [])
    ∙ ap (◌++◌ (values_at tokens is)) (values_at_one tokens i t e)

raw_token-parse_token :
    (cfg : Config) (tokens : List Token) (r : RawParsing) (i : ℕ) (t : Token) (next : Option Token)
    {r' : RawParsing}
    → get_elem? tokens i ≡ some t
    → raw_token cfg r i t next ≡ ok r'
    → parse_token cfg (erase tokens r) t.value (value_text next) ≡ ok (erase tokens r')
unfolding raw_token parse_token
raw_token-parse_token cfg tokens r i t next {r'} e h = ground (
  arith,
  values_at-add tokens r.positional_indexes i t,
  raw_option-parse_option cfg tokens r t next {r' = r'},
)

get_elem?-append :
    (before : List Token) (t : Token) (rest : List Token)
    → get_elem? (before ++ t ∷ rest) (length before) ≡ some t
get_elem?-append [] t rest = refl
get_elem?-append (b ∷ before) t rest = get_elem?-append before t rest

append_cons :
    (before : List Token) (t : Token) (rest : List Token)
    → (before ++ t ∷ []) ++ rest ≡ before ++ t ∷ rest
append_cons before t rest = append_assoc before (t ∷ []) rest

length-snoc : (before : List Token) (t : Token) → length (before ++ t ∷ []) ≡ length before + 1
length-snoc before t = omega (arith, length-append before (t ∷ []))

-- The tokens from `index` on are `rest`.
abbrev From : List Token → ℕ → List Token → Type 0
From tokens i [] = Unit
From tokens i (t ∷ rest) = (get_elem? tokens i ≡ some t) × From tokens (i + 1) rest

From-append : (before rest : List Token) → From (before ++ rest) (length before) rest
From-append before [] = tt
From-append before (t ∷ rest) = (
  get_elem?-append before t rest,
  subst₂ (λ ts i. From ts i rest) (append_cons before t rest) (length-snoc before t)
      (From-append (before ++ t ∷ []) rest),
)

value_text-head? : (rest : List Token) → value_text (head? rest) ≡ head? (map token_value rest)
value_text-head? [] = refl
value_text-head? (t ∷ rest) = refl

raw_from-parse_from :
    (cfg : Config) (tokens : List Token) (rest : List Token) (r : RawParsing) (i : ℕ)
    {r' : RawParsing}
    → From tokens i rest
    → raw_from cfg r i rest ≡ ok r'
    → parse_from cfg (erase tokens r) (map token_value rest) ≡ ok (erase tokens r')
unfolding raw_from parse_from
raw_from-parse_from cfg tokens [] r i at h = cc
raw_from-parse_from cfg tokens (t ∷ rest) r i at h =
    let (r1, later, one) =
      returned (λ s. raw_from cfg s (i + 1) rest) (raw_token cfg r i t (head? rest)) h in
    rw (← value_text-head? rest) (
      rw (raw_token-parse_token cfg tokens r i t (head? rest) at.0 one)
        (raw_from-parse_from cfg tokens rest r1 (i + 1) at.1 later))

finish_raw_keeps :
    (input : Text) (tokens : List Token) (r : RawParsing) {p : RawParsed}
    → finish_raw input tokens r ≡ ok p
    → (p.options ≡ r.options) × (p.positionals ≡ values_at tokens r.positional_indexes)
unfolding finish_raw
finish_raw_keeps input tokens r h = ground arith

-- What `parseRawArgs` accepts, `parseArgs` accepts on the values of its tokens, with the same options
-- and the same positionals.
pub parse_raw_args-parse_args :
    (cfg : Config) (input : Text) (p : RawParsed)
    → parse_raw_args cfg input ≡ ok p
    → parse_args cfg (map token_value (raw_argument_tokens input))
      ≡ ok (record { options = p.options; positionals = p.positionals })
unfolding parse_raw_args parse_args
parse_raw_args-parse_args cfg input p h =
    let tokens = raw_argument_tokens input in
    let (r, cut, looped) = returned (finish_raw input tokens) (raw_from cfg Raw.start 0 tokens) h in
    rw (raw_from-parse_from cfg tokens tokens Raw.start 0 (From-append [] tokens) looped)
      (ground (arith, finish_raw_keeps input tokens r cut))
