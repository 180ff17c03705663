-- ===== src/Args/Spans.antt =====
-- shared/companion/args.mjs, `rawArgumentTokens`: the tokens tile the raw string.
use mathlib.Core.Path.{subst}
use mathlib.Core.List.{append_assoc}
use claude_code_fusion.Common.{
  ℕ, ◌+◌, ◌≡◌, refl, sym, ap, ◌∙◌, ◌⊎◌, inl, inr, true, false, Option, none, some, [], ◌∷◌, ◌++◌,
  arith, length, length-append,
}
use claude_code_fusion.Common.Text.{Text, is_space}
use claude_code_fusion.Args.Tokens.{
  Scanner, scan_unit, scan_from, scan_in, last_token, fresh, raw_argument_tokens,
}
use claude_code_fusion.Args.Tiling.{
  Tiles, Round, goes_on, ends, Open, Closed, Tiles-nil, Tiles-space, scan_in-Round, Scans, scan_end,
  Round-Scans,
}

scan_unit-scan_in :
    (input : Text) (b i : ℕ) (prev : Option ℕ) (c : ℕ) (s : Scanner)
    → s.start ≡ some b
    → scan_unit input i prev c s ≡ scan_in input b i prev c s
unfolding scan_unit
scan_unit-scan_in input b i prev c s h = rw h

-- A round outside tokens.
gap_unit :
    (input : Text) (i : ℕ) (prev : Option ℕ) (c : ℕ) (s : Scanner)
    → s.start ≡ none
    → ((is_space c ≡ true) × (scan_unit input i prev c s ≡ s))
      ⊎ ((is_space c ≡ false)
          × (scan_unit input i prev c s ≡ scan_in input i i prev c (record s { start = some i })))
unfolding scan_unit
gap_unit input i prev c s h = ground arith

gap_start :
    (input : Text) (i : ℕ) (prev : Option ℕ) (c : ℕ) (s s' : Scanner)
    → is_space c ≡ false
    → Round input i i c (record s { start = some i }) s'
    → (s'.tokens ≡ s.tokens) × (s'.start ≡ some i)
gap_start input i prev c s s' n (goes_on same st) = (same, st)
gap_start input i prev c s s' n (ends sp q es e) = cc

Closed-space :
    {input before : Text} {d : ℕ} {ds : Text} {i : ℕ} {s : Scanner}
    → Closed input before (d ∷ ds) i s
    → Closed input (before ++ d ∷ []) ds (i + 1) s
Closed-space {before = before} {d} {ds} k = record {
  split = k.split ∙ sym (append_assoc before (d ∷ []) ds);
  at = omega (arith, k.at, length-append before (d ∷ []));
  no_start = k.no_start;
  no_quote = k.no_quote;
  no_escape = k.no_escape;
}

Closed-start :
    {input before : Text} {d : ℕ} {ds : Text} {i : ℕ} {s : Scanner} (s' : Scanner)
    → Closed input before (d ∷ ds) i s
    → is_space d ≡ false
    → s'.start ≡ some i
    → Open input before d [] ds (i + 1) s'
Closed-start s' k n st = record {
  split = k.split;
  at = omega (arith, k.at);
  started = st ∙ ap some k.at;
  solid = n;
}

scan_gap :
    {input before : Text} (d : ℕ) (ds : Text) {i : ℕ} (prev : Option ℕ) (s : Scanner)
    → Closed input before (d ∷ ds) i s
    → (Closed input (before ++ d ∷ []) ds (i + 1) s → Scans input (i + 1) (some d) s ds (i + 1) ds)
    → ((s' : Scanner)
        → Open input before d [] ds (i + 1) s'
        → Scans input (i + 1) (some d) s' ds (length before) (d ∷ ds))
    → Scans input i prev s (d ∷ ds) i (d ∷ ds)
unfolding scan_from
scan_gap {input} {before} d ds {i} prev s k stay begin =
    elim (gap_unit input i prev d s k.no_start) [
      | inl (sp, e) ↦
          let (ts, f, tiles) = stay (Closed-space k) in (ts, rw e f, Tiles-space d sp tiles)
      | inr (n, e) ↦
          let s' = scan_in input i i prev d (record s { start = some i }) in
          let (same, st) =
            gap_start input i prev d s s' n
              (scan_in-Round input i i prev d (record s { start = some i }) refl) in
          let (ts, f, tiles) = begin s' (Closed-start s' k n st) in
          (ts, rw e (f ∙ ap (λ l. l ++ ts) same), subst (λ n. Tiles n (d ∷ ds) ts) (sym k.at) tiles)
    ]

scan_solid :
    {input before : Text} {c : ℕ} {w : Text} (d : ℕ) (ds : Text) {i : ℕ} (prev : Option ℕ)
    (s : Scanner)
    → Open input before c w (d ∷ ds) i s
    → ((s' : Scanner)
        → Open input before c (w ++ d ∷ []) ds (i + 1) s'
        → Scans input (i + 1) (some d) s' ds (length before) ((c ∷ (w ++ d ∷ [])) ++ ds))
    → ((s' : Scanner)
        → Closed input (before ++ (c ∷ w) ++ d ∷ []) ds (i + 1) s'
        → Scans input (i + 1) (some d) s' ds (i + 1) ds)
    → Scans input i prev s (d ∷ ds) (length before) ((c ∷ w) ++ (d ∷ ds))
unfolding scan_from
scan_solid {input} {before} d ds {i} prev s o more close =
    let s' = scan_in input (length before) i prev d s in
    let (ts, e, tiles) =
      Round-Scans d ds prev s o s' (scan_in-Round input (length before) i prev d s o.started)
        (more s') (close s') in
    (ts, rw (scan_unit-scan_in input (length before) i prev d s o.started) e, tiles)

mutual
  unfolding scan_from

  scan_outside :
      (cs : Text) (input before : Text) (i : ℕ) (prev : Option ℕ) (s : Scanner)
      → Closed input before cs i s
      → Scans input i prev s cs i cs
  scan_outside [] input before i prev s k =
      ([], ap (λ x. s.tokens ++ last_token input s x) k.no_start, Tiles-nil i)
  scan_outside (d ∷ ds) input before i prev s k =
      scan_gap d ds prev s k (scan_outside ds input (before ++ d ∷ []) (i + 1) (some d) s)
        (scan_inside ds input before d [] (i + 1) (some d))

  scan_inside :
      (cs : Text) (input before : Text) (c : ℕ) (w : Text) (i : ℕ) (prev : Option ℕ) (s : Scanner)
      → Open input before c w cs i s
      → Scans input i prev s cs (length before) ((c ∷ w) ++ cs)
  scan_inside [] input before c w i prev s o = scan_end prev o
  scan_inside (d ∷ ds) input before c w i prev s o =
      scan_solid d ds prev s o (scan_inside ds input before c (w ++ d ∷ []) (i + 1) (some d))
        (scan_outside ds input (before ++ (c ∷ w) ++ d ∷ []) (i + 1) (some d))

-- The tokens tile the whole input, whatever it holds.
pub raw_argument_tokens-Tiles : (input : Text) → Tiles 0 input (raw_argument_tokens input)
unfolding raw_argument_tokens
raw_argument_tokens-Tiles input =
    let k : Closed input [] input 0 fresh = record {
      split = refl;
      at = refl;
      no_start = refl;
      no_quote = refl;
      no_escape = refl;
    } in
    let (ts, e, tiles) = scan_outside input input [] 0 none fresh k in rw e tiles
