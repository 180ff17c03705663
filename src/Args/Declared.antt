-- ===== src/Args/Declared.antt =====
-- shared/companion/args.mjs, `parseArgs`: what the returned options hold.
use mathlib.Core.Path.{subst}
use claude_code_fusion.Common.{
  ◌≡◌, Bool, true, false, Option, List, [], ◌∷◌, arith, head?, All, inl, inr, Bool-cases,
}
use claude_code_fusion.Common.Text.{Text, has}
use claude_code_fusion.Args.Config.{
  Config, OptionValue, flag, text, Options, Result, ok, err, ◌>>=◌, returned, set_option, canonical,
  split_option,
}
use claude_code_fusion.Args.Parse.{
  Parsing, Parsed, start, boolean_option, value_option, parse_option, parse_token, parse_from,
  parse_args, assign,
}

-- A flag is a declared Boolean option; a text is a declared value option that is not also Boolean.
abbrev pub IsDeclared : Config → Text × OptionValue → Type 0
IsDeclared cfg (k, flag b) = has cfg.boolean_options k ≡ true
IsDeclared cfg (k, text v) = (has cfg.boolean_options k ≡ false) × (has cfg.value_options k ≡ true)

set_option-All {ℓ} :
    (P : Text × OptionValue → Type ℓ) (k : Text) (v : OptionValue) (m : Options)
    → P (k, v)
    → All P m
    → All P (set_option k v m)
unfolding set_option
set_option-All P k v [] h hm = (h, tt)
set_option-All P k v ((j, w) ∷ m) h hm = ground (arith, set_option-All P k v m h hm.1)

abbrev Declares : Config → Result Parsing → Type 0
Declares cfg (ok s) = All (IsDeclared cfg) s.options
Declares cfg (err e) = Unit

assign_flag :
    (cfg : Config) (k : Text) (s : Parsing) (m : Result Bool)
    → has cfg.boolean_options k ≡ true
    → All (IsDeclared cfg) s.options
    → Declares cfg (m >>= λ b. ok (assign k (flag b) s))
assign_flag cfg k s (ok b) h a = set_option-All (IsDeclared cfg) k (flag b) s.options h a
assign_flag cfg k s (err e) h a = tt

assign_text :
    (cfg : Config) (k : Text) (s : Parsing) (m : Result (Text × Bool))
    → has cfg.boolean_options k ≡ false
    → has cfg.value_options k ≡ true
    → All (IsDeclared cfg) s.options
    → Declares cfg (m >>= λ (v, skip). ok (record (assign k (text v) s) { skip = skip }))
assign_text cfg k s (ok (v, skip)) n h a =
    set_option-All (IsDeclared cfg) k (text v) s.options (n, h) a
assign_text cfg k s (err e) n h a = tt

parse_option-Declares :
    (cfg : Config) (s : Parsing) (token : Text) (next : Option Text)
    → All (IsDeclared cfg) s.options
    → Declares cfg (parse_option cfg s token next)
unfolding parse_option
parse_option-Declares cfg s token next a =
    let o = split_option token in
    let k = canonical cfg o.raw_key in
    elim (Bool-cases (has cfg.boolean_options k)) [
      | inl b ↦ rw b (assign_flag cfg k s (boolean_option cfg o) b a)
      | inr n ↦ rw n (elim (Bool-cases (has cfg.value_options k)) [
        | inl v ↦ rw v (assign_text cfg k s (value_option cfg o next) n v a)
        | inr u ↦ rw u tt
      ])
    ]

parse_token-Declares :
    (cfg : Config) (s : Parsing) (token : Text) (next : Option Text)
    → All (IsDeclared cfg) s.options
    → Declares cfg (parse_token cfg s token next)
unfolding parse_token
parse_token-Declares cfg s token next a = ground (arith, parse_option-Declares cfg s token next a)

parse_from-Declares :
    (cfg : Config) (argv : List Text) (s : Parsing)
    → All (IsDeclared cfg) s.options
    → Declares cfg (parse_from cfg s argv)
unfolding parse_from
parse_from-Declares cfg [] s a = a
parse_from-Declares cfg (token ∷ rest) s a =
    go (parse_token cfg s token (head? rest)) (parse_token-Declares cfg s token (head? rest) a)
      (parse_from-Declares cfg rest)
  where
    go :
        (m : Result Parsing)
        → Declares cfg m
        → ((s' : Parsing) → All (IsDeclared cfg) s'.options → Declares cfg (parse_from cfg s' rest))
        → Declares cfg (m >>= λ s'. parse_from cfg s' rest)
    go (ok s') d ih = ih s' d
    go (err e) d ih = tt

-- Whatever `parseArgs` accepts, its options are declared ones, each with a value of its kind.
pub parse_args-IsDeclared :
    (cfg : Config) (argv : List Text) (p : Parsed)
    → parse_args cfg argv ≡ ok p
    → All (IsDeclared cfg) p.options
unfolding parse_args
parse_args-IsDeclared cfg argv p h =
    let (s, e, looped) = returned _ (parse_from cfg start argv) h in
    let d = rw looped at (parse_from-Declares cfg argv start tt) in
    subst
      (λ (r : Result Parsed). elim r [ ok q ↦ All (IsDeclared cfg) q.options | err x ↦ Unit {0} ]) e
      d
