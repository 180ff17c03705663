-- ===== src/Args/Tiling.antt =====
-- shared/companion/args.mjs, `rawArgumentTokens`: how tokens tile a text, and what one round of the
-- loop does to a token.
use mathlib.Core.Path.{subst}
use mathlib.Core.List.{append_assoc}
use claude_code_fusion.Common.{
  ℕ, ◌+◌, ◌-◌, ◌≡◌, refl, sym, ap, ◌∙◌, true, false, Option, none, some, List, [], ◌∷◌, ◌++◌, arith,
  length, length-append, every, drop-append, take-append,
}
use claude_code_fusion.Common.Text.{Text, slice, is_space}
use claude_code_fusion.Args.Tokens.{Token, Scanner, scan_from, scan_in, last_token}

-- Nothing follows, or white space does.
abbrev Ends : Text → Type 0
Ends [] = Unit
Ends (c ∷ cs) = is_space c ≡ true

-- The text from offset `o` on is white space and tokens in turn: each token holds the units between
-- its offsets, starts with a unit that is no white space, and ends before white space or at the end.
pub data Tiles : ℕ → Text → List Token → Type 0 where
  blank : {o : ℕ} {text : Text} → every is_space text ≡ true → Tiles o text []
  next :
      {o : ℕ} {text : Text} {t : Token} {ts : List Token} (gap : Text) (c : ℕ) (w rest : Text)
      → text ≡ gap ++ ((c ∷ w) ++ rest)
      → every is_space gap ≡ true
      → is_space c ≡ false
      → t.value ≡ c ∷ w
      → t.start ≡ o + length gap
      → t.end ≡ t.start + length (c ∷ w)
      → Ends rest
      → Tiles t.end rest ts
      → Tiles o text (t ∷ ts)

pub Tiles-nil : (o : ℕ) → Tiles o [] []
unfolding every
Tiles-nil o = blank refl

pub Tiles-space :
    {o : ℕ} {text : Text} {ts : List Token} (s : ℕ)
    → is_space s ≡ true
    → Tiles (o + 1) text ts
    → Tiles o (s ∷ text) ts
Tiles-space {text} s h (blank e) = blank {text = s ∷ text} (unfold every in ground arith)
Tiles-space s h (next gap c w rest e g n v st en es more) =
    next (s ∷ gap) c w rest (ap (◌∷◌ s) e) (unfold every in ground arith) n v (omega arith) en es
      more

-- A round inside a token either keeps it open, or ends it at white space outside quotes.
pub data Round (input : Text) (b i c : ℕ) (s s' : Scanner) : Type 0 where
  goes_on : s'.tokens ≡ s.tokens → s'.start ≡ some b → Round input b i c s s'
  ends :
      is_space c ≡ true
      → s.quote ≡ none
      → s.escaping ≡ false
      → s' ≡ record s {
        tokens =
            s.tokens
            ++ (record { value = slice b i input; start = b; end = i; unterminated_quote = false }
                ∷ []);
        start = none;
      }
      → Round input b i c s s'

pub scan_in-Round :
    (input : Text) (b i : ℕ) (prev : Option ℕ) (c : ℕ) (s : Scanner)
    → s.start ≡ some b
    → Round input b i c s (scan_in input b i prev c s)
scan_in-Round input b i prev c s h = grind (arith, goes_on, ends)

sub_self : (a b : ℕ) → a + b - a ≡ b
sub_self a b = omega arith

slice-append :
    (done pend cs : Text)
    → slice (length done) (length done + length pend) (done ++ (pend ++ cs)) ≡ pend
unfolding slice
slice-append done pend cs =
    rw (drop-append done (pend ++ cs))
      (rw (sub_self (length done) (length pend)) (take-append pend cs))

-- What the loop returns from a state, and how that tiles the text from `o` on.
abbrev pub Scans : Text → ℕ → Option ℕ → Scanner → Text → ℕ → Text → Type 0
Scans input i prev s cs o text =
    (ts : List Token) × (scan_from input i prev s cs ≡ s.tokens ++ ts) × Tiles o text ts

-- The facts about a state inside a token that starts behind `before` and holds `c ∷ w` so far.
pub record Open (input before : Text) (c : ℕ) (w cs : Text) (i : ℕ) (s : Scanner) : Type 0 where
  pub split : input ≡ before ++ ((c ∷ w) ++ cs)
  pub at : i ≡ length before + length (c ∷ w)
  pub started : s.start ≡ some (length before)
  pub solid : is_space c ≡ false

pub record Closed (input before cs : Text) (i : ℕ) (s : Scanner) : Type 0 where
  pub split : input ≡ before ++ cs
  pub at : i ≡ length before
  pub no_start : s.start ≡ none
  pub no_quote : s.quote ≡ none
  pub no_escape : s.escaping ≡ false

module _ {input before : Text} {c : ℕ} {w cs : Text} {i : ℕ} {s : Scanner}
    (o : Open input before c w cs i s) where
  Open-slice : slice (length before) i input ≡ c ∷ w
  Open-slice = rw (o.at, o.split) (slice-append before (c ∷ w) cs)

  Open-length : length input ≡ i + length cs
  Open-length = omega (
    arith,
    ap length o.split,
    length-append before ((c ∷ w) ++ cs),
    length-append (c ∷ w) cs,
    o.at,
  )

  -- The token that a round or the end of the text completes.
  Open-next :
      {t : Token} {ts : List Token}
      → t.value ≡ slice (length before) i input
      → t.start ≡ length before
      → t.end ≡ i
      → Ends cs
      → Tiles i cs ts
      → Tiles (length before) ((c ∷ w) ++ cs) (t ∷ ts)
  Open-next {t} {ts} v st en es more =
      next [] c w cs refl (unfold every in refl) o.solid (v ∙ Open-slice) (omega arith)
        (omega (arith, o.at)) es (rw en more)

  Open-more :
      (d : ℕ) {ds : Text} {s' : Scanner}
      → cs ≡ d ∷ ds
      → s'.start ≡ some (length before)
      → Open input before c (w ++ d ∷ []) ds (i + 1) s'
  Open-more d {ds} e st = record {
    split = o.split ∙ rw e (ap (λ x. before ++ (c ∷ x)) (sym (append_assoc w (d ∷ []) ds)));
    at = omega (arith, o.at, length-append w (d ∷ []));
    started = st;
    solid = o.solid;
  }

  Open-ends :
      (d : ℕ) {ds : Text} {s' : Scanner}
      → cs ≡ d ∷ ds
      → s'.start ≡ none
      → s'.quote ≡ none
      → s'.escaping ≡ false
      → Closed input (before ++ (c ∷ w) ++ d ∷ []) ds (i + 1) s'
  Open-ends d {ds} e st q es = record {
    split = o.split ∙ rw e (simp append_assoc);
    at =
        omega
          (arith, o.at, length-append (before ++ (c ∷ w)) (d ∷ []), length-append before (c ∷ w));
    no_start = st;
    no_quote = q;
    no_escape = es;
  }

pub scan_end :
    {input before : Text} {c : ℕ} {w : Text} {i : ℕ} (prev : Option ℕ) {s : Scanner}
    → Open input before c w [] i s
    → Scans input i prev s [] (length before) ((c ∷ w) ++ [])
unfolding scan_from
scan_end {input} {before} {i = i} prev {s} o = (
  last_token input s (some (length before)),
  rw o.started,
  Open-next o (rw (Open-length o) (ap (λ n. slice (length before) n input) (omega arith))) refl
      (omega (arith, Open-length o)) tt (Tiles-nil i),
)

-- A round behind a state inside a token, from what holds of either outcome.
pub Round-Scans :
    {input before : Text} {c : ℕ} {w : Text} (d : ℕ) (ds : Text) {i : ℕ} (prev : Option ℕ)
    (s : Scanner)
    → Open input before c w (d ∷ ds) i s
    → (s' : Scanner) → Round input (length before) i d s s'
    → (Open input before c (w ++ d ∷ []) ds (i + 1) s'
        → Scans input (i + 1) (some d) s' ds (length before) ((c ∷ (w ++ d ∷ [])) ++ ds))
    → (Closed input (before ++ (c ∷ w) ++ d ∷ []) ds (i + 1) s'
        → Scans input (i + 1) (some d) s' ds (i + 1) ds)
    → (ts : List Token) × (scan_from input (i + 1) (some d) s' ds ≡ s.tokens ++ ts)
      × Tiles (length before) ((c ∷ w) ++ (d ∷ ds)) ts
Round-Scans {input} {before} {c} {w} d ds prev s o s' (goes_on same st) more close =
    let (ts, e, tiles) = more (Open-more o d refl st) in
    (
      ts,
      e ∙ ap (λ l. l ++ ts) same,
      subst (λ x. Tiles (length before) (c ∷ x) ts) (append_assoc w (d ∷ []) ds) tiles,
    )
Round-Scans {input} {before} {c} {w} d ds {i} prev s o s' (ends sp q es e) more close =
    let t : Token = record {
      value = slice (length before) i input;
      start = length before;
      end = i;
      unterminated_quote = false;
    } in
    let (ts, f, tiles) = close (
      Open-ends o d refl (ap (λ x. x.start) e) (ap (λ x. x.quote) e ∙ q)
        (ap (λ x. x.escaping) e ∙ es)) in
    (
      t ∷ ts,
      f ∙ ap (λ x. x.tokens ++ ts) e ∙ append_assoc s.tokens (t ∷ []) ts,
      Open-next o refl refl refl sp (Tiles-space d sp tiles),
    )
