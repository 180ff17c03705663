-- ===== src/Args/RoundTrip.antt =====
-- shared/companion/args.mjs, `parseArgs`: options that a caller writes out are read back.
use mathlib.Core.Path.{ap₂}
use mathlib.Core.List.{append-nil, append_assoc}
use native.Mathlib.Numerals.{add-one}
use claude_code_fusion.Common.{
  suc, ◌+◌, ◌≡◌, refl, sym, ap, ◌∙◌, true, false, Option, none, some, List, [], ◌∷◌, ◌++◌, map,
  arith, length, head?, All, drop, take-append,
}
use claude_code_fusion.Common.Text.{Text, codes, text_eq, has, starts_with, index_of}
use claude_code_fusion.Args.Config.{
  Config, OptionValue, flag, text, Options, ok, set_option, alias, canonical, split_raw,
  split_option, unquote_option_value, dashes,
}
use claude_code_fusion.Args.Parse.{
  Parsing, start, add_positional, assign, boolean_option, value_option, parse_option, is_verbatim,
  parse_token, parse_from, parse_args,
}

abbrev value_text : OptionValue → Text
value_text (flag true) = codes "true"
value_text (flag false) = codes "false"
value_text (text v) = v

-- `--key=value`.
abbrev pub encode : Text × OptionValue → Text
encode (k, v) = b'-' ∷ b'-' ∷ (k ++ (b'=' ∷ value_text v))

abbrev KindFits : Config → Text × OptionValue → Type 0
KindFits cfg (k, flag b) = has cfg.boolean_options k ≡ true
KindFits cfg (k, text v) =
    (has cfg.boolean_options k ≡ false)
    × (has cfg.value_options k ≡ true)
    × (unquote_option_value v ≡ v)

-- An option that can be written out: its key holds no `=` and is no alias, and its value does not
-- stand in quotes that the parser would take off.
abbrev pub IsWritable : Config → Text × OptionValue → Type 0
IsWritable cfg (k, v) =
    (index_of b'=' k ≡ none) × (alias cfg.alias_map k ≡ none) × KindFits cfg (k, v)

index_of_eq :
    (k v : Text) → index_of b'=' k ≡ none → index_of b'=' (k ++ (b'=' ∷ v)) ≡ some (length k)
unfolding index_of
index_of_eq [] v h = refl
index_of_eq (c ∷ k) v h = ground (arith, index_of_eq k v)

drop_key_suc : (k v : Text) → drop (suc (length k)) (k ++ (b'=' ∷ v)) ≡ v
drop_key_suc [] v = refl
drop_key_suc (c ∷ k) v = drop_key_suc k v

drop_key : (k v : Text) → drop (length k + 1) (k ++ (b'=' ∷ v)) ≡ v
drop_key k v = rw add-one (drop_key_suc k v)

split_encoded :
    (k v : Text)
    → index_of b'=' k ≡ none
    → split_option (b'-' ∷ b'-' ∷ (k ++ (b'=' ∷ v))) ≡ record {
      long = true;
      raw = k ++ (b'=' ∷ v);
      raw_key = k;
      inline_value = some (unquote_option_value v);
    }
unfolding split_option split_raw starts_with
split_encoded k v h =
    rw (index_of_eq k v h, split_raw) (rw (take-append k (b'=' ∷ v)) (rw (drop_key k v)))

-- The round for one written option, outside the passthrough.
encoded-parse_option :
    (cfg : Config) (s : Parsing) (o : Text × OptionValue) (next : Option Text)
    → IsWritable cfg o
    → s.skip ≡ false
    → parse_option cfg s (encode o) next ≡ ok (assign o.0 o.1 s)
unfolding parse_option boolean_option value_option canonical text_eq unquote_option_value
encoded-parse_option cfg s (k, flag true) next (e, a, h) sk = rw (split_encoded k _ e) (rw a (rw h))
encoded-parse_option cfg s (k, flag false) next (e, a, h) sk =
    rw (split_encoded k _ e) (rw a (rw h))
encoded-parse_option cfg s (k, text v) next (e, a, (n, h, u)) sk =
    rw (split_encoded k v e) (rw a (rw n (rw h (kept v u))))
  where
    kept :
        (w : Text)
        → unquote_option_value w ≡ w
        → ok (record (assign k (text (unquote_option_value w)) s) { skip = false })
          ≡ ok (assign k (text w) s)
    kept w u =
        ap (λ x. ok (record (assign k (text x) s) { skip = false })) u
        ∙ ap (λ b. ok (record (assign k (text w) s) { skip = b })) (sym sk)

not-dashes : (k v : Text) → text_eq (b'-' ∷ b'-' ∷ (k ++ (b'=' ∷ v))) dashes ≡ false
unfolding text_eq
not-dashes [] v = refl
not-dashes (c ∷ k) v = refl

-- Nothing but written options has been read.
abbrev IsFresh : Parsing → Type 0
IsFresh s = (s.skip ≡ false) × (s.passthrough ≡ false) × (s.positional_started ≡ false)

encoded-parse_token :
    (cfg : Config) (s : Parsing) (o : Text × OptionValue) (next : Option Text)
    → IsWritable cfg o
    → IsFresh s
    → parse_token cfg s (encode o) next ≡ ok (assign o.0 o.1 s)
unfolding parse_token is_verbatim text_eq starts_with
encoded-parse_token cfg s (k, v) next w f =
    ground (arith, not-dashes k (value_text v), encoded-parse_option cfg s (k, v) next w f.0)

passthrough-parse_token :
    (cfg : Config) (t : Text) (next : Option Text) (s : Parsing)
    → s.skip ≡ false
    → s.passthrough ≡ true
    → parse_token cfg s t next ≡ ok (add_positional t s)
unfolding parse_token is_verbatim
passthrough-parse_token cfg t next s k p = ground arith

-- Behind `--` every token is a positional, whatever it looks like.
passthrough-parse_from :
    (cfg : Config) (tokens : List Text) (s : Parsing)
    → s.skip ≡ false
    → s.passthrough ≡ true
    → (s' : Parsing) × (parse_from cfg s tokens ≡ ok s')
      × (s'.options ≡ s.options)
      × (s'.positionals ≡ s.positionals ++ tokens)
unfolding parse_from
passthrough-parse_from cfg [] s k p = (s, refl, refl, sym (append-nil s.positionals))
passthrough-parse_from cfg (t ∷ ts) s k p =
    let (s', e, o, q) = passthrough-parse_from cfg ts (add_positional t s) k p in
    (
      s',
      rw (passthrough-parse_token cfg t (head? ts) s k p) e,
      o,
      q ∙ append_assoc s.positionals (t ∷ []) ts,
    )

dashes-parse_token :
    (cfg : Config) (s : Parsing) (next : Option Text)
    → IsFresh s
    → parse_token cfg s dashes next ≡ ok (record s { passthrough = true })
unfolding parse_token is_verbatim text_eq
dashes-parse_token cfg s next f = ground arith

abbrev pub set_all : List (Text × OptionValue) → Options → Options
set_all [] m = m
set_all ((k, v) ∷ os) m = set_all os (set_option k v m)

encoded-parse_from :
    (cfg : Config) (os : List (Text × OptionValue)) (prompt : List Text) (s : Parsing)
    → All (IsWritable cfg) os
    → IsFresh s
    → (s' : Parsing) × (parse_from cfg s (map encode os ++ (dashes ∷ prompt)) ≡ ok s')
      × (s'.options ≡ set_all os s.options)
      × (s'.positionals ≡ s.positionals ++ prompt)
unfolding parse_from
encoded-parse_from cfg [] prompt s w f =
    let (s', e, o, q) =
      passthrough-parse_from cfg prompt (record s { passthrough = true }) f.0 refl in
    (s', rw (dashes-parse_token cfg s (head? prompt) f) e, o, q)
encoded-parse_from cfg ((k, v) ∷ os) prompt s w f =
    let (s', e, o, q) = encoded-parse_from cfg os prompt (assign k v s) w.1 f in
    (
      s',
      rw (encoded-parse_token cfg s (k, v) (head? (map encode os ++ (dashes ∷ prompt))) w.0 f) e,
      o,
      q,
    )

-- Options that are written out as `--key=value`, then `--` and a prompt of any words, are read back:
-- the options as they were set in turn, and the prompt as the positionals.
pub parse_args-encode :
    (cfg : Config) (os : List (Text × OptionValue)) (prompt : List Text)
    → All (IsWritable cfg) os
    → parse_args cfg (map encode os ++ (dashes ∷ prompt))
      ≡ ok (record { options = set_all os []; positionals = prompt })
unfolding parse_args
parse_args-encode cfg os prompt w =
    let (s', e, o, q) = encoded-parse_from cfg os prompt start w (refl, refl, refl) in
    rw e (ap₂ (λ m ps. ok (record { options = m; positionals = ps })) o q)
