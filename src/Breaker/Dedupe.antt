-- ===== src/Breaker/Dedupe.antt =====
-- plugins/fusion/scripts/breaker-check.mjs, `readDeduplicatedJobRecords`: which copy of a record stays.
use claude_code_fusion.Common.{
  ℕ, ◌≡◌, refl, inl, inr, Bool, true, false, not, ◌&&◌, ◌||◌, Option, none, some, List, [], ◌∷◌,
  arith, if◌then◌else◌, All, Bool-cases,
}
use claude_code_fusion.Common.Text.{Text, text_eq, text_eq_iff}
use claude_code_fusion.Breaker.Records.{JobRecord, trimmed, record_timestamp}
use claude_code_fusion.Breaker.Report.{
  is_terminal, later, outranks, add_by_id, add_record, dedupe_from,
}

abbrev pub find_id : Text → List (Text × JobRecord) → Option JobRecord
find_id id [] = none
find_id id ((j, r) ∷ m) = if text_eq j id then some r else find_id id m

-- The test on its four inputs.
abbrev beats : Bool → Option ℕ → Bool → Option ℕ → Bool
beats a s b t = (a && not b) || ((if a then b else not b) && later s t)

beats_neg_trans :
    (a b c : Bool) (s t u : Option ℕ)
    → beats a s b t ≡ false
    → beats b t c u ≡ false
    → beats a s c u ≡ false
beats_neg_trans a b c none none none h k = ground arith
beats_neg_trans a b c _ _ _ h k = ground arith

beats_asym : (a b : Bool) (s t : Option ℕ) → beats a s b t ≡ true → beats b t a s ≡ false
beats_asym a b none none h = ground arith
beats_asym a b _ _ h = ground arith

module _ (parse_date : Text → Option ℕ) where
  outranks_neg_trans :
      (p q r : JobRecord)
      → outranks parse_date p q ≡ false
      → outranks parse_date q r ≡ false
      → outranks parse_date p r ≡ false
  unfolding outranks
  outranks_neg_trans p q r h k =
      beats_neg_trans (is_terminal p) (is_terminal q) (is_terminal r)
        (record_timestamp parse_date p) (record_timestamp parse_date q)
        (record_timestamp parse_date r) h k

  outranks_asym :
      (p q : JobRecord) → outranks parse_date p q ≡ true → outranks parse_date q p ≡ false
  unfolding outranks
  outranks_asym p q h =
      beats_asym (is_terminal p) (is_terminal q) (record_timestamp parse_date p)
        (record_timestamp parse_date q) h

  abbrev better : JobRecord → Option JobRecord → JobRecord
  better r none = r
  better r (some c) = if outranks parse_date r c then r else c

  find_id-add :
      (id j : Text) (r : JobRecord) (m : List (Text × JobRecord))
      → find_id id (add_by_id parse_date j r m)
        ≡ (if text_eq j id then some (better r (find_id id m)) else find_id id m)
  unfolding add_by_id
  find_id-add id j r [] = refl
  find_id-add id j r ((i, c) ∷ m) =
      ground (arith, text_eq_iff i j, text_eq_iff j id, text_eq_iff i id, find_id-add id j r m)

  outranks_irrefl : (p : JobRecord) → outranks parse_date p p ≡ false
  outranks_irrefl p = elim (Bool-cases (outranks parse_date p p)) [
    | inl h ↦ outranks_asym p p h
    | inr h ↦ h
  ]

  -- A current record and the next one are both no better than what wins of the two.
  better_beats :
      (r c : JobRecord)
      → (outranks parse_date r (better r (some c)) ≡ false)
        × (outranks parse_date c (better r (some c)) ≡ false)
  better_beats r c = elim (Bool-cases (outranks parse_date r c)) [
    | inl h ↦ rw h (outranks_irrefl r, outranks_asym r c h)
    | inr h ↦ rw h (h, outranks_irrefl c)
  ]

  abbrev Beaten : Text → JobRecord → JobRecord → Type 0
  Beaten id k r = trimmed r.id ≡ some id → outranks parse_date r k ≡ false

  abbrev BeatenOpt : JobRecord → Option JobRecord → Type 0
  BeatenOpt k none = Unit
  BeatenOpt k (some c) = outranks parse_date c k ≡ false

  settle :
      (k r : JobRecord) (m : Option JobRecord)
      → outranks parse_date (better r m) k ≡ false
      → BeatenOpt k m × (outranks parse_date r k ≡ false)
  settle k r none h = (tt, h)
  settle k r (some c) h =
      let (x, y) = better_beats r c in
      (
        outranks_neg_trans c (better r (some c)) k y h,
        outranks_neg_trans r (better r (some c)) k x h,
      )

  add_record-step :
      (id : Text) (k r : JobRecord) (s : List JobRecord × List (Text × JobRecord)) (m : Option Text)
      → trimmed r.id ≡ m
      → BeatenOpt k (find_id id (add_record parse_date m r s).1)
      → BeatenOpt k (find_id id s.1) × Beaten id k r
  add_record-step id k r s none e h = (h, λ f. absurd (cc))
  add_record-step id k r s (some j) e h = elim (Bool-cases (text_eq j id)) [
    | inl y ↦
        let (a, b) = settle k r (find_id id s.1) (rw y at (rw (find_id-add id j r s.1) at h)) in
        (a, λ f. b)
    | inr n ↦
        (rw n at (rw (find_id-add id j r s.1) at h), λ f. absurd (ground (arith, text_eq_iff j id)))
  ]

  dedupe_from-best :
      (id : Text) (k : JobRecord) (rs : List JobRecord)
      (s : List JobRecord × List (Text × JobRecord))
      → find_id id (dedupe_from parse_date s rs).1 ≡ some k
      → BeatenOpt k (find_id id s.1) × All (Beaten id k) rs
  unfolding dedupe_from
  dedupe_from-best id k [] s h = (rw h (outranks_irrefl k), tt)
  dedupe_from-best id k (r ∷ rs) s h =
      let (b, all) = dedupe_from-best id k rs (add_record parse_date (trimmed r.id) r s) h in
      let (c, d) = add_record-step id k r s (trimmed r.id) refl b in (c, (d, all))

  -- Of all records with an id, the one that is kept is outranked by none: it is terminal if any of them
  -- is, and among those that are as terminal as it is, none has a later time.
  pub dedupe_from_best :
      (id : Text) (k : JobRecord) (rs : List JobRecord)
      → find_id id (dedupe_from parse_date ([], []) rs).1 ≡ some k
      → All (λ r. trimmed r.id ≡ some id → outranks parse_date r k ≡ false) rs
  dedupe_from_best id k rs h = (dedupe_from-best id k rs ([], []) h).1
