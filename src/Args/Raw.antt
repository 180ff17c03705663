-- ===== src/Args/Raw.antt =====
-- shared/companion/args.mjs, `parseRawArgs`: the same grammar over one raw string, from which the
-- prompt is cut out as it was typed.
use claude_code_fusion.Common.{
  ℕ, zero, suc, ◌+◌, ◌-◌, Bool, true, false, not, ◌&&◌, ◌||◌, Option, none, some, List, [], ◌∷◌,
  ◌++◌, ltb, ◌==◌, if◌then◌else◌, length, head?, get_elem?, any,
}
use claude_code_fusion.Common.Text.{Text, text_eq, has, starts_with, slice}
use claude_code_fusion.Args.Tokens.{token_code, Token, is_unit, raw_argument_tokens}
use claude_code_fusion.Args.Config.{
  Config, OptionValue, flag, text, Options, unknown_option, unterminated_flag, unterminated_value,
  split_prompt, Result, ok, err, ◌>>=◌, set_option, canonical, split_option, dashes, dash,
}
use claude_code_fusion.Args.Parse.{parse_code, boolean_option, value_option, is_verbatim}

pub record RawParsing : Type 0 where
  pub options : Options
  pub positional_indexes : List ℕ
  pub passthrough : Bool
  pub positional_started : Bool
  pub skip : Bool

pub record RawParsed : Type 0 where
  pub options : Options
  pub positionals : List Text
  pub positional_text : Text

abbrev pub start : RawParsing
start = record {
  options = [];
  positional_indexes = [];
  passthrough = false;
  positional_started = false;
  skip = false;
}

abbrev pub add_index : ℕ → RawParsing → RawParsing
add_index index s = record s {
  positional_indexes = s.positional_indexes ++ index ∷ [];
  positional_started = true;
}

abbrev pub assign : Text → OptionValue → RawParsing → RawParsing
assign key v s = record s { options = set_option key v s.options }

abbrev pub quote_open : Option Token → Bool
quote_open none = false
quote_open (some t) = t.unterminated_quote

abbrev pub value_text : Option Token → Option Text
value_text none = none
value_text (some t) = some t.value

-- `nextTokenInfo`: the next token is looked at only where there is no inline value.
abbrev pub next_info : Option Text → Option Token → Option Token
next_info none next = next
next_info (some v) next = none

unfoldable pub raw_option : Config → RawParsing → Token → Option Token → Result RawParsing
raw_option cfg s t next =
    let o = split_option t.value in
    let key = canonical cfg o.raw_key in
    if has cfg.boolean_options key
    then (if t.unterminated_quote
        then err (unterminated_flag o.raw_key)
        else (do b ← boolean_option cfg o; ok (assign key (flag b) s)))
    else if has cfg.value_options key
    then (let next' = next_info o.inline_value next in
        if t.unterminated_quote || quote_open next'
        then err (unterminated_value o.long o.raw_key)
        else (do
          (v, skip) ← value_option cfg o (value_text next')
          ok (record (assign key (text v) s) { skip = skip })))
    else err (unknown_option t.value)

-- One round of the loop.
unfoldable pub raw_token : Config → RawParsing → ℕ → Token → Option Token → Result RawParsing
raw_token cfg s index t next =
    if s.skip
    then ok (record s { skip = false })
    else if is_verbatim cfg s.passthrough s.positional_started t.value
    then ok (add_index index s)
    else if text_eq t.value dashes
    then ok (record s { passthrough = true })
    else if not (starts_with dash t.value)
    then ok (add_index index s)
    else raw_option cfg s t next

unfoldable pub raw_from : Config → RawParsing → ℕ → List Token → Result RawParsing
raw_from cfg s index [] = ok s
raw_from cfg s index (t ∷ rest) = do
  s' ← raw_token cfg s index t (head? rest)
  raw_from cfg s' (index + 1) rest

-- `input[n - k]`.
abbrev unit_before : Text → ℕ → ℕ → Option ℕ
unit_before input n k = if ltb n k then none else get_elem? input (n - k)

abbrev token_start : Option Token → ℕ
token_start none = 0
token_start (some t) = t.start

abbrev token_end : Option Token → ℕ
token_end none = 0
token_end (some t) = t.end

-- A line break of two units is one separator.
unfoldable pub start_behind : Text → ℕ → ℕ
start_behind input syntax_end =
    if is_unit (get_elem? input syntax_end) b'\r'
      && is_unit (get_elem? input (syntax_end + 1)) b'\n'
    then syntax_end + 2
    else syntax_end + 1

unfoldable pub raw_prompt_start : Text → List Token → ℕ → ℕ
raw_prompt_start input tokens first =
    if first == 0 then 0 else start_behind input (token_end (get_elem? tokens (first - 1)))

unfoldable pub end_before : Text → ℕ → ℕ
end_before input syntax_start =
    if is_unit (unit_before input syntax_start 2) b'\r'
      && is_unit (unit_before input syntax_start 1) b'\n'
    then syntax_start - 2
    else syntax_start - 1

unfoldable pub raw_prompt_end : Text → List Token → ℕ → ℕ
raw_prompt_end input tokens last =
    if last + 1 == length tokens
    then length input
    else end_before input (token_start (get_elem? tokens (last + 1)))

-- The loop from `first` to `last`: no index between them is missing from the set.
pub no_gap : List ℕ → ℕ → ℕ → Bool
no_gap indexes zero index = true
no_gap indexes (suc n) index = any (◌==◌ index) indexes && no_gap indexes n (index + 1)

abbrev value_at : List Token → ℕ → List Text
value_at tokens i = elim (get_elem? tokens i) [ none ↦ [] | some t ↦ t.value ∷ [] ]

abbrev pub values_at : List Token → List ℕ → List Text
values_at tokens [] = []
values_at tokens (i ∷ is) = value_at tokens i ++ values_at tokens is

abbrev last_from : ℕ → List ℕ → ℕ
last_from i [] = i
last_from i (j ∷ js) = last_from j js

-- What follows the loop, by the indexes that it has collected.
abbrev cut_prompt : Text → List Token → Options → List ℕ → Result RawParsed
cut_prompt input tokens options [] =
    ok (record { options = options; positionals = []; positional_text = [] })
cut_prompt input tokens options (first ∷ rest) =
    let last = last_from first rest in
    if not (no_gap (first ∷ rest) (last + 1 - first) first)
    then err split_prompt
    else ok (record {
      options = options;
      positionals = values_at tokens (first ∷ rest);
      positional_text =
          slice (raw_prompt_start input tokens first) (raw_prompt_end input tokens last) input;
    })

unfoldable pub finish_raw : Text → List Token → RawParsing → Result RawParsed
finish_raw input tokens s = cut_prompt input tokens s.options s.positional_indexes

unfoldable pub parse_raw_args : Config → Text → Result RawParsed
parse_raw_args cfg input =
    let tokens = raw_argument_tokens input in
    do s ← raw_from cfg start 0 tokens; finish_raw input tokens s

unfoldable pub raw_code : Unit {0}
unfolding parse_code token_code raw_option raw_token raw_from start_behind raw_prompt_start
    end_before raw_prompt_end no_gap any finish_raw parse_raw_args
raw_code = tt
