-- ===== src/Args/Config.antt =====
-- shared/companion/args.mjs: the options that a caller declares, and the pieces of an option token.
use claude_code_fusion.Common.{
  ℕ, ◌+◌, Bool, true, false, not, ◌&&◌, ◌||◌, Option, none, some, List, [], ◌∷◌, if◌then◌else◌,
  or_else, length, take, drop, last?, ◌≡◌, refl,
}
use claude_code_fusion.Common.Text.{Text, codes, text_eq, has, starts_with, index_of, is_empty}
use claude_code_fusion.Args.Tokens.{is_quote, is_unit}

-- `aliasMap` is a plain object: an association list of its own keys. A name that objects inherit,
-- such as "constructor", is no alias here.
pub record Config : Type 0 where
  pub value_options : List Text
  pub boolean_options : List Text
  pub alias_map : List (Text × Text)
  pub options_before_positionals : Bool

pub data OptionValue : Type 0 where
  flag : Bool → OptionValue
  text : Text → OptionValue

abbrev pub Options : Type 0
Options = List (Text × OptionValue)

pub data ArgError : Type 0 where
  unknown_short : Text → ArgError
  invalid_boolean : Text → Text → ArgError
  missing_value : Bool → Text → ArgError
  unknown_option : Text → ArgError
  unterminated_flag : Text → ArgError
  unterminated_value : Bool → Text → ArgError
  split_prompt : ArgError

pub data Result {ℓ} (A : Type ℓ) : Type ℓ where
  ok : A → Result A
  err : ArgError → Result A

-- An exception skips the rest of the function.
infixl 5 ◌>>=◌
abbrev pub ◌>>=◌ {ℓ κ} : {X : Type ℓ} {Y : Type κ} → Result X → (X → Result Y) → Result Y
err thrown >>= next = err thrown
ok value >>= next = next value

pub returned {ℓ κ} :
    {X : Type ℓ} {Y : Type κ} {y : Y} (next : X → Result Y) (first : Result X)
    → (first >>= next) ≡ ok y
    → (x : X) × (next x ≡ ok y) × (first ≡ ok x)
returned next (err thrown) done = absurd (cc)
returned next (ok value) done = (value, done, refl)

-- `options[key] = value`.
unfoldable pub set_option : Text → OptionValue → Options → Options
set_option k v [] = (k, v) ∷ []
set_option k v ((j, w) ∷ m) = if text_eq j k then (k, v) ∷ m else (j, w) ∷ set_option k v m

get_option : Text → Options → Option OptionValue
get_option k [] = none
get_option k ((j, w) ∷ m) = if text_eq j k then some w else get_option k m

-- `aliasMap[name]`.
unfoldable pub alias : List (Text × Text) → Text → Option Text
alias [] name = none
alias ((j, k) ∷ m) name = if text_eq j name then some k else alias m name

-- `aliasMap[rawKey] ?? rawKey`.
unfoldable pub canonical : Config → Text → Text
canonical cfg raw_key = or_else (alias cfg.alias_map raw_key) raw_key

abbrev pub is_truthy : Option Text → Bool
is_truthy none = false
is_truthy (some t) = not (is_empty t)

-- `Boolean(aliasMap[raw])`.
unfoldable pub has_alias : Config → Text → Bool
has_alias cfg raw = is_truthy (alias cfg.alias_map raw)

-- A value that is wrapped in one pair of quotes loses them.
unfoldable pub unquote_option_value : Text → Text
unquote_option_value [] = []
unquote_option_value (c ∷ []) = c ∷ []
unquote_option_value (c ∷ d ∷ ds) =
    if is_quote c && is_unit (last? (d ∷ ds)) c then take (length ds) (d ∷ ds) else c ∷ d ∷ ds

-- The constants that the loops compute from an option token.
pub record OptionToken : Type 0 where
  pub long : Bool
  pub raw : Text
  pub raw_key : Text
  pub inline_value : Option Text

abbrev pub key_before : Text → Option ℕ → Text
key_before raw none = raw
key_before raw (some i) = take i raw

abbrev value_behind : Text → Option ℕ → Option Text
value_behind raw none = none
value_behind raw (some i) = some (unquote_option_value (drop (i + 1) raw))

abbrev pub dashes : Text
dashes = codes "--"

abbrev pub dash : Text
dash = codes "-"

unfoldable pub split_raw : Bool → Text → OptionToken
split_raw long raw =
    let separator = if long then index_of b'=' raw else none in
    record {
      long = long;
      raw = raw;
      raw_key = key_before raw separator;
      inline_value = value_behind raw separator;
    }

unfoldable pub split_option : Text → OptionToken
split_option token =
    if starts_with dashes token
    then split_raw true (drop 2 token)
    else split_raw false (drop 1 token)

unfoldable pub is_known : Config → Text → Bool
is_known cfg key = has cfg.value_options key || has cfg.boolean_options key

unfoldable pub is_known_option_token : Config → Text → Bool
is_known_option_token cfg token =
    if is_empty token || text_eq token dash || not (starts_with dash token)
    then false
    else if starts_with dashes token
    then is_known cfg (canonical cfg (key_before (drop 2 token) (index_of b'=' (drop 2 token))))
    else is_known cfg (canonical cfg (drop 1 token))

-- The code of this file, for the runs.
unfoldable pub option_code : Unit {0}
unfolding set_option get_option alias canonical has_alias unquote_option_value split_raw
    split_option is_known is_known_option_token text_eq has starts_with index_of
option_code = tt
