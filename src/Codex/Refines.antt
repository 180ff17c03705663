-- ===== src/Codex/Refines.antt =====
-- plugins/codex/scripts/lib/args.mjs against shared/companion/args.mjs: what the one accepts, the other
-- accepts too, with the same result.
use mathlib.Core.Path.{subst}
use claude_code_fusion.Common.{
  ℕ, ◌≡◌, refl, ap, Bool, true, false, not, ◌&&◌, ◌||◌, Option, none, some, List, [], ◌∷◌, ltb,
  arith, if◌then◌else◌, inl, inr, Bool-cases, is_some, every, length, head?, drop,
}
use claude_code_fusion.Common.Text.{Text, text_eq, has, has-every, starts_with, index_of, is_empty}
use claude_code_fusion.Args.Config.{
  Config, Result, ok, err, returned, OptionToken, is_known, is_known_option_token, canonical, alias,
  has_alias, dash, dashes, split_option, unquote_option_value, key_before, text, ArgError,
  unknown_short,
}
use claude_code_fusion.Args.Parse.{Parsing, Parsed, start, assign, is_verbatim, boolean_value}
use claude_code_fusion.Args.Parse
use claude_code_fusion.Codex.Args.{is_declared, key_of, known_option_token}
use claude_code_fusion.Codex.Args

-- The same options, without aliases.
abbrev pub plain : Config → Config
plain cfg = record cfg { alias_map = [] }

abbrev is_name : Text → Bool
is_name k = not (is_some (index_of b'=' k))

-- No option is declared under a name with an equals sign.
abbrev pub IsNamed : Config → Type 0
IsNamed cfg = (every is_name cfg.value_options ≡ true) × (every is_name cfg.boolean_options ≡ true)

declared-is_name :
    (cfg : Config) (k : Text) → IsNamed cfg → is_declared cfg k ≡ true → is_name k ≡ true
declared-is_name cfg k (values, flags) h = elim (Bool-cases (has cfg.value_options k)) [
  | inl y ↦ has-every is_name cfg.value_options k y values
  | inr n ↦
      has-every is_name cfg.boolean_options k
        (subst (λ b. (b || has cfg.boolean_options k) ≡ true) n h) flags
]

not_a_name : (o : Option ℕ) (i : ℕ) → o ≡ some i → not (is_some o) ≡ true → ⊥
not_a_name none i e h = ground arith
not_a_name (some j) i e h = ground arith

declared_short :
    (cfg : Config) (raw : Text) (i : Option ℕ)
    → IsNamed cfg
    → index_of b'=' raw ≡ i
    → is_declared cfg (key_before raw i) ≡ false
    → is_declared cfg raw ≡ false
declared_short cfg raw none named e h = h
declared_short cfg raw (some i) named e h = elim (Bool-cases (is_declared cfg raw)) [
  | inl y ↦ absurd (not_a_name _ i e (declared-is_name cfg raw named y))
  | inr n ↦ n
]

known_option_token-is_known :
    (cfg : Config) (t : Text)
    → IsNamed cfg
    → known_option_token cfg t ≡ false
    → is_known_option_token (plain cfg) t ≡ false
unfolding known_option_token is_known_option_token is_known canonical alias
known_option_token-is_known cfg t named h =
    elim (Bool-cases (is_empty t || text_eq t dash || not (starts_with dash t))) [
      | inl y ↦ rw y refl
      | inr n ↦ elim (Bool-cases (starts_with dashes t)) [
        | inl y ↦ rw (n, y) (simp (n, y) at h)
        | inr m ↦ rw (n, m) (declared_short cfg (drop 1 t) _ named refl (simp (n, m) at h))
      ]
    ]

&&-true : (a b : Bool) → (a && b && true) ≡ (a && b)
&&-true a b = ground arith

pub not_ok : {A : Type 0} {e : ArgError} {x : A} → err e ≡ ok x → ⊥
not_ok h = ground arith

pub boolean_option_eq :
    (cfg : Config) (o : OptionToken) → Parse.boolean_option (plain cfg) o ≡ Args.boolean_option o
unfolding Parse.boolean_option Args.boolean_option has_alias alias
boolean_option_eq cfg o =
    ap
      (λ (b : Bool).
        if b then err (unknown_short o.raw) else boolean_value o.raw_key o.inline_value)
      (&&-true (not o.long) (ltb 1 (length o.raw)))

value_of_next_ok :
    (cfg : Config) (o : OptionToken) (next : Option Text) {x : Text × Bool}
    → IsNamed cfg
    → Args.value_of_next cfg o next ≡ ok x
    → Parse.value_of_next (plain cfg) o next ≡ ok x
value_of_next_ok cfg o none named h = absurd (ground arith)
value_of_next_ok cfg o (some n) named h =
    elim (Bool-cases (known_option_token cfg (unquote_option_value n))) [
      | inl y ↦ absurd (not_ok (simp y at h))
      | inr m ↦ rw (known_option_token-is_known cfg (unquote_option_value n) named m) (simp m at h)
    ]

pub value_option_ok :
    (cfg : Config) (o : OptionToken) (inline_value next : Option Text) {x : Text × Bool}
    → IsNamed cfg
    → Args.value_of cfg o inline_value next ≡ ok x
    → Parse.value_of (plain cfg) o inline_value next ≡ ok x
value_option_ok cfg o none next named h = value_of_next_ok cfg o next named h
value_option_ok cfg o (some v) next named h = h

parse_option_ok :
    (cfg : Config) (s : Parsing) (token : Text) (next : Option Text) {x : Parsing}
    → IsNamed cfg
    → Args.parse_option cfg s token next ≡ ok x
    → Parse.parse_option (plain cfg) s token next ≡ ok x
unfolding Args.parse_option Parse.parse_option Args.value_option Parse.value_option canonical alias
parse_option_ok cfg s token next named h =
    let o = split_option token in
    elim (Bool-cases (has cfg.boolean_options o.raw_key)) [
      | inl y ↦ rw (y, boolean_option_eq cfg o) (simp y at h)
      | inr n ↦ elim (Bool-cases (has cfg.value_options o.raw_key)) [
        | inl y ↦
            let (v, done, e) =
              returned
                (λ (p : Text × Bool). ok (record (assign o.raw_key (text p.0) s) { skip = p.1 })) _
                (simp (n, y) at h) in
            rw (n, y, value_option_ok cfg o o.inline_value next named e) done
        | inr m ↦ absurd (not_ok (simp (n, m) at h))
      ]
    ]

-- A second branch may be replaced by one that accepts as much.
pub if_ok :
    {A : Type 0} (b : Bool) (p q r : Result A) {x : A}
    → (q ≡ ok x → r ≡ ok x)
    → (if b then p else q) ≡ ok x
    → (if b then p else r) ≡ ok x
if_ok true p q r f h = h
if_ok false p q r f h = f h

parse_token_ok :
    (cfg : Config) (s : Parsing) (token : Text) (next : Option Text) {x : Parsing}
    → IsNamed cfg
    → Args.parse_token cfg s token next ≡ ok x
    → Parse.parse_token (plain cfg) s token next ≡ ok x
unfolding Args.parse_token Parse.parse_token is_verbatim
parse_token_ok cfg s token next named h =
    if_ok s.skip _ _ _
      (if_ok (is_verbatim cfg s.passthrough s.positional_started token) _ _ _ (
        if_ok (text_eq token dashes) _ _ _
          (if_ok (not (starts_with dash token)) _ _ _ (parse_option_ok cfg s token next named))))
      h

parse_from_ok :
    (cfg : Config) (tokens : List Text) (s : Parsing) {x : Parsing}
    → IsNamed cfg
    → Args.parse_from cfg s tokens ≡ ok x
    → Parse.parse_from (plain cfg) s tokens ≡ ok x
unfolding Args.parse_from Parse.parse_from
parse_from_ok cfg [] s named h = h
parse_from_ok cfg (token ∷ rest) s named h =
    let (t, done, e) = returned (λ u. Args.parse_from cfg u rest) _ h in
    rw (parse_token_ok cfg s token (head? rest) named e) (parse_from_ok cfg rest t named done)

-- What the parser of the Codex companion accepts, the shared parser accepts with no aliases, and reads in
-- it the same options and positionals, if no option is declared under a name with an equals sign.
pub parse_args-plain :
    (cfg : Config) (argv : List Text) (x : Parsed)
    → IsNamed cfg
    → Args.parse_args cfg argv ≡ ok x
    → Parse.parse_args (plain cfg) argv ≡ ok x
unfolding Args.parse_args Parse.parse_args
parse_args-plain cfg argv x named h =
    let (s, done, e) =
      returned (λ (s : Parsing). ok (record { options = s.options; positionals = s.positionals })) _
        h in
    rw (parse_from_ok cfg argv start named e) done
