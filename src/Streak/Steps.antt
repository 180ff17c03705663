-- ===== src/Streak/Steps.antt =====
-- plugins/fusion/scripts/lib/guard/read-streak.mjs, `splitReadSegments`: one round of the loop,
-- against the quotes of a shell.
use mathlib.Core.Path.{subst}
use mathlib.Core.Option.{some-injective}
use claude_code_fusion.Common.{
  ℕ, zero, suc, ◌≡◌, ap, refl, sym, Bool, true, false, not, ◌&&◌, ◌||◌, Option, none, some, List,
  [], ◌∷◌, ◌++◌, ◌==◌, arith, if◌then◌else◌, inl, inr, Bool-cases, is_some,
}
use claude_code_fusion.Common.Text.{Text, trim, is_empty}
use claude_code_fusion.Streak.Segments.{
  Reader, next_is, ends_in_two, target_length, gives_up, is_separator, cut_segment, read_plain,
  read_redirect, redirect_of, read_open, read_quoted, read_by_quote, read_here, read_skipped,
  read_unit,
}
use claude_code_fusion.Streak.Quoting.{
  is_escape, quote_after, escaped_after, harmless_by_quote, is_harmless,
}
use claude_code_fusion.Streak.Targets.{Skips, redirect_target-Skips}

abbrev pub Ready : ℕ → Option ℕ → Bool → Text → Type 0
Ready zero quote escaped t = Unit
Ready (suc n) quote escaped t = Skips (suc n) t × (quote ≡ none) × (escaped ≡ false)

pub record Step (c : ℕ) (rest : Text) (quote : Option ℕ) (escaped : Bool) (s : Reader)
    : Type 0 where
  pub harmless : is_harmless c rest quote escaped ≡ true
  pub quote_is : s.quote ≡ quote_after c quote escaped
  pub escaped_is : s.escaped ≡ escaped_after c quote escaped
  pub ready : Ready s.skip s.quote s.escaped rest

abbrev reader : List Text → Text → Option ℕ → Bool → ℕ → Reader
reader segments segment quote escaped skip = record {
  segments = segments;
  segment = segment;
  quote = quote;
  escaped = escaped;
  skip = skip;
}

-- A round behind which nothing is skipped.
plain-Step :
    (c : ℕ) (rest : Text) (quote : Option ℕ) (escaped : Bool) (segments : List Text)
    (segment : Text) (s : Reader)
    → is_harmless c rest quote escaped ≡ true
    → reader segments segment (quote_after c quote escaped) (escaped_after c quote escaped) 0 ≡ s
    → Step c rest quote escaped s
plain-Step c rest quote escaped segments segment s h e =
    subst (Step c rest quote escaped) e
      (record { harmless = h; quote_is = refl; escaped_is = refl; ready = tt })

quoted-Step :
    (c : ℕ) (rest : Text) (q : ℕ) (segments : List Text) (segment : Text) (s : Reader)
    → is_escape c (some q) ≡ false
    → read_quoted c rest (reader segments segment (some q) false 0) q ≡ some s
    → Step c rest (some q) false s
quoted-Step c rest q segments segment s e h =
    elim (Bool-cases (q == b'"' && (c == b'`' || (c == b'$' && next_is b'(' rest)))) [
      | inl y ↦ absurd (cc (rw y at h))
      | inr n ↦ elim (Bool-cases (c == q)) [
        | inl y ↦
            plain-Step c rest (some q) false segments (segment ++ c ∷ []) s (ground arith)
              (rw (e, y) (some-injective _ s (rw (n, y) at h)))
        | inr m ↦
            plain-Step c rest (some q) false segments (segment ++ c ∷ []) s (ground arith)
              (rw (e, m) (some-injective _ s (rw (n, m) at h)))
      ]
    ]

-- The unit is neither a quote nor an escape.
abbrev is_bare : ℕ → Bool
is_bare c = not (c == b'\\') && not (c == b'\'') && not (c == b'"')

bare_after : (c : ℕ) → is_bare c ≡ true → quote_after c none false ≡ none
bare_after c h = ground arith

bare_escaped : (c : ℕ) → is_bare c ≡ true → escaped_after c none false ≡ false
bare_escaped c h = ground arith

-- A round outside quotes, with its skip.
bare-Step :
    (c : ℕ) (rest : Text) (segments : List Text) (segment : Text) (skip : ℕ) (s : Reader)
    → is_bare c ≡ true
    → harmless_by_quote c rest none ≡ true
    → Skips skip rest
    → reader segments segment none false skip ≡ s
    → Step c rest none false s
bare-Step c rest segments segment skip s b h r e = subst (Step c rest none false) e (record {
  harmless = ground arith;
  quote_is = sym (bare_after c b);
  escaped_is = sym (bare_escaped c b);
  ready = ready skip r;
})
  where
    ready : (n : ℕ) → Skips n rest → Ready n none false rest
    ready zero k = tt
    ready (suc n) k = (k, refl, refl)

cut-Step :
    (c : ℕ) (rest : Text) (segments : List Text) (segment : Text) (s : Reader)
    → is_bare c ≡ true
    → harmless_by_quote c rest none ≡ true
    → Skips (if c == b'&' then 1 else 0) rest
    → cut_segment c (reader segments segment none false 0) ≡ some s
    → Step c rest none false s
cut-Step c rest segments segment s b h r e = elim (Bool-cases (is_empty (trim segment))) [
  | inl y ↦ absurd (cc (rw y at e))
  | inr n ↦
      bare-Step c rest (segments ++ trim segment ∷ []) [] (if c == b'&' then 1 else 0) s b h r
        (some-injective _ s (rw n at e))
]

-- A second `&` is passed over.
and-Skips :
    (c : ℕ) (rest : Text) → gives_up c rest ≡ false → Skips (if c == b'&' then 1 else 0) rest
unfolding gives_up
and-Skips c rest h = elim (Bool-cases (c == b'&')) [
  | inl y ↦ rw y (first rest (ground arith))
  | inr n ↦ rw n tt
]
  where
    first : (t : Text) → next_is b'&' t ≡ true → Skips 1 t
    first [] k = tt
    first (d ∷ t) k = (ground arith, tt)

plain_read-Step :
    (c : ℕ) (rest : Text) (segments : List Text) (segment : Text) (s : Reader)
    → is_bare c ≡ true
    → read_plain c rest (reader segments segment none false 0) ≡ some s
    → Step c rest none false s
unfolding gives_up is_separator
plain_read-Step c rest segments segment s b h = elim (Bool-cases (gives_up c rest)) [
  | inl y ↦ absurd (cc (rw y at h))
  | inr n ↦ elim (Bool-cases (is_separator c rest)) [
    | inl y ↦
        cut-Step c rest segments segment s b (ground arith) (and-Skips c rest n) (rw (n, y) at h)
    | inr m ↦
        bare-Step c rest segments (segment ++ c ∷ []) 0 s b (ground arith) tt
          (some-injective _ s (rw (n, m) at h))
  ]
]

redirect-Step :
    (c : ℕ) (rest : Text) (segments : List Text) (segment : Text) (s : Reader)
    (target : Option Text)
    → is_bare c ≡ true
    → redirect_of c rest segment ≡ target
    → read_redirect c rest (reader segments segment none false 0) target ≡ some s
    → Step c rest none false s
redirect-Step c rest segments segment s none b t h = plain_read-Step c rest segments segment s b h
redirect-Step c rest segments segment s (some target) b t h =
    elim (Bool-cases (c == b'>' && ends_in_two segment)) [
      | inr n ↦ absurd (cc (rw n at t))
      | inl y ↦
          let found = rw y at t in
          let known = ap is_some found in
          bare-Step c rest segments (segment ++ c ∷ target) (target_length target) s b
            (ground arith) (redirect_target-Skips rest target found) (some-injective _ s h)
    ]

open-Step :
    (c : ℕ) (rest : Text) (segments : List Text) (segment : Text) (s : Reader)
    → is_escape c none ≡ false
    → read_open c rest (reader segments segment none false 0) ≡ some s
    → Step c rest none false s
open-Step c rest segments segment s e h = elim (Bool-cases (c == b'\'' || c == b'"')) [
  | inl y ↦
      plain-Step c rest none false segments (segment ++ c ∷ []) s (ground arith)
        (rw (e, y) (some-injective _ s (rw y at h)))
  | inr n ↦
      redirect-Step c rest segments segment s (redirect_of c rest segment) (ground arith) refl
        (rw n at h)
]

here-Step :
    (c : ℕ) (rest : Text) (segments : List Text) (segment : Text) (quote : Option ℕ)
    (escaped : Bool) (s : Reader)
    → read_here c rest (reader segments segment quote escaped 0) ≡ some s
    → Step c rest quote escaped s
here-Step c rest segments segment quote true s h =
    plain-Step c rest quote true segments (segment ++ c ∷ []) s refl (some-injective _ s h)
here-Step c rest segments segment quote false s h = elim (Bool-cases (is_escape c quote)) [
  | inl y ↦
      plain-Step c rest quote false segments (segment ++ c ∷ []) s (rw y refl)
        (rw y (some-injective _ s (rw y at h)))
  | inr n ↦ by_quote quote n (rw n at h)
]
  where
    by_quote :
        (q : Option ℕ)
        → is_escape c q ≡ false
        → read_by_quote c rest (reader segments segment q false 0) q ≡ some s
        → Step c rest q false s
    by_quote none n k = open-Step c rest segments segment s n k
    by_quote (some q) n k = quoted-Step c rest q segments segment s n k

pub unit-Step :
    (c : ℕ) (rest : Text) (r s : Reader)
    → read_unit c rest r ≡ some s
    → Ready r.skip r.quote r.escaped (c ∷ rest)
    → Step c rest r.quote r.escaped s
unfolding read_unit
unit-Step c rest r s h a = go r.skip h a
  where
    go :
        (skip : ℕ)
        → read_skipped c rest (record r { skip = skip }) skip ≡ some s
        → Ready skip r.quote r.escaped (c ∷ rest)
        → Step c rest r.quote r.escaped s
    go zero k a = here-Step c rest r.segments r.segment r.quote r.escaped s k
    go (suc n) k ((i, more), none_open, plain) =
        rw (none_open, plain)
          (bare-Step c rest r.segments r.segment n s (ground arith) (ground arith) more
            (some-injective _ s (rw (none_open, plain) at k)))
