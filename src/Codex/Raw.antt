-- ===== src/Codex/Raw.antt =====
-- plugins/codex/scripts/lib/args.mjs, `parseRawArgs`. Its tokens, and what it makes of the indexes that its
-- loop has collected, are those of Args/Tokens and Args/Raw, whose lines are the same text.
use claude_code_fusion.Common.{
  ℕ, ◌+◌, true, false, not, ◌||◌, Option, List, [], ◌∷◌, if◌then◌else◌, head?,
}
use claude_code_fusion.Common.Text.{Text, text_eq, has, starts_with}
use claude_code_fusion.Args.Tokens.{Token, raw_argument_tokens}
use claude_code_fusion.Args.Config.{
  Config, flag, text, unknown_option, unterminated_flag, unterminated_value, Result, ok, err, ◌>>=◌,
  split_option, dashes, dash,
}
use claude_code_fusion.Args.Parse.{is_verbatim}
use claude_code_fusion.Args.Raw.{
  RawParsing, RawParsed, start, add_index, assign, quote_open, value_text, next_info, finish_raw,
}
use claude_code_fusion.Codex.Args.{boolean_option, value_option}

unfoldable pub raw_option : Config → RawParsing → Token → Option Token → Result RawParsing
raw_option cfg s t next =
    let o = split_option t.value in
    if has cfg.boolean_options o.raw_key
    then (if t.unterminated_quote
        then err (unterminated_flag o.raw_key)
        else (do b ← boolean_option o; ok (assign o.raw_key (flag b) s)))
    else if has cfg.value_options o.raw_key
    then (let next' = next_info o.inline_value next in
        if t.unterminated_quote || quote_open next'
        then err (unterminated_value o.long o.raw_key)
        else (do
          (v, skip) ← value_option cfg o (value_text next')
          ok (record (assign o.raw_key (text v) s) { skip = skip })))
    else err (unknown_option t.value)

-- One round of the loop.
unfoldable pub raw_token : Config → RawParsing → ℕ → Token → Option Token → Result RawParsing
raw_token cfg s index t next =
    if s.skip
    then ok (record s { skip = false })
    else if is_verbatim cfg s.passthrough s.positional_started t.value
    then ok (add_index index s)
    else if text_eq t.value dashes
    then ok (record s { passthrough = true })
    else if not (starts_with dash t.value)
    then ok (add_index index s)
    else raw_option cfg s t next

unfoldable pub raw_from : Config → RawParsing → ℕ → List Token → Result RawParsing
raw_from cfg s index [] = ok s
raw_from cfg s index (t ∷ rest) = do
  s' ← raw_token cfg s index t (head? rest)
  raw_from cfg s' (index + 1) rest

unfoldable pub parse_raw_args : Config → Text → Result RawParsed
parse_raw_args cfg input =
    let tokens = raw_argument_tokens input in
    do s ← raw_from cfg start 0 tokens; finish_raw input tokens s
