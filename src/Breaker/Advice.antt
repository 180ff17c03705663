-- ===== src/Breaker/Advice.antt =====
-- plugins/fusion/scripts/breaker-check.mjs, `latestBreakerFailure`: what the advised failure is.
use claude_code_fusion.Common.{
  ℕ, ◌≤◌, ◌≡◌, refl, ◌⊎◌, inl, inr, Bool, true, false, Option, none, some, List, [], ◌∷◌, ◌++◌,
  arith, length, All, All-append, Bool-cases,
}
use mathlib.Core.Path.{subst}
use mathlib.Core.Option.{some-injective}
use claude_code_fusion.Breaker.Sorted.{sort_outcomes-All}
use claude_code_fusion.Common.Text.{Text, codes, text_eq, text_eq_iff, has}
use claude_code_fusion.Breaker.Kinds.{breaker_failure_kinds, failure_statuses, terminal_statuses}
use claude_code_fusion.Breaker.Records.{
  JobRecord, Failure, has_field, is_within_lookback, supported_breaker_failure, record_timestamp,
  engine_failure, failure_at, normalized_recorded_failure_kind, trimmed,
}
use claude_code_fusion.Breaker.Latest.{
  Scope, Outcome, out_of_scope, outcome_of, outcome_at, outcomes_of, sort_outcomes, verdict,
  count_kind, Advice, advise, latest_breaker_failure,
}
use claude_code_fusion.Breaker.Standing.{Reports, Hard, Repeated}
use claude_code_fusion.Breaker.Window.{verdict_sound}

supported_kind :
    (r : JobRecord) (k : Text)
    → supported_breaker_failure r k ≡ true
    → has breaker_failure_kinds k ≡ true
unfolding supported_breaker_failure
supported_kind r k h = elim (Bool-cases (text_eq k (codes "permission"))) [
  | inl e ↦ rw ((text_eq_iff k (codes "permission")).0 e) (unfold has text_eq in refl)
  | inr n ↦ rw n at h
]

failure_at-eq-some :
    (now lookback : ℕ) (supported : Bool) (k : Text) (v : Option Text) (m : Option ℕ) {f : Failure}
    → failure_at now lookback supported k v m ≡ some f
    → (supported ≡ true) × (k ≡ f.failure_kind)
failure_at-eq-some now lookback supported k v none h = cc
failure_at-eq-some now lookback supported k v (some t) h = ground arith

module _ (parse_date : Text → Option ℕ) (now lookback : ℕ) where
  engine_failure_kind :
      (r : JobRecord) {f : Failure}
      → engine_failure parse_date now lookback r ≡ some f
      → (has_field failure_statuses r.status ≡ true)
        × (has breaker_failure_kinds f.failure_kind ≡ true)
  unfolding engine_failure
  engine_failure_kind r h = elim (Bool-cases (has_field failure_statuses r.status)) [
    | inr n ↦ absurd (cc (rw n at h))
    | inl y ↦
        let k = normalized_recorded_failure_kind r in
        let (s, e) =
          failure_at-eq-some now lookback (supported_breaker_failure r k) k (trimmed r.version)
            (record_timestamp parse_date r) (rw y at h) in
        (y, subst (λ x. has breaker_failure_kinds x ≡ true) e (supported_kind r k s))
  ]

  -- What is known of an outcome: it lies in the window, and a kind that counts is in scope.
  record Fits (scope : Option Scope) (o : Outcome) : Type 0 where
    within : is_within_lookback o.timestamp now lookback ≡ true
    in_scope : (k : Text) → o.failure_kind ≡ some k → out_of_scope scope k ≡ false
    known : (k : Text) → o.failure_kind ≡ some k → has breaker_failure_kinds k ≡ true

  abbrev reader : JobRecord → Option Failure
  reader = engine_failure parse_date now lookback

  outcome_of-Fits :
      (scope : Option Scope) (r : JobRecord) (t : ℕ)
      → is_within_lookback t now lookback ≡ true
      → Fits scope (outcome_of scope r t (reader r))
  unfolding outcome_of
  outcome_of-Fits scope r t w = go (reader r) (λ f e. engine_failure_kind r {f = f} e)
    where
      go :
          (m : Option Failure)
          → ((f : Failure)
              → m ≡ some f
              → (has_field failure_statuses r.status ≡ true)
                × (has breaker_failure_kinds f.failure_kind ≡ true))
          → Fits scope (outcome_of scope r t m)
      go none h = record { within = w; in_scope = λ k e. ground arith; known = λ k e. ground arith }
      go (some f) h = record {
        within = w;
        in_scope = λ k e. ground (arith, h f refl);
        known = λ k e. ground (arith, h f refl);
      }

  outcomes_of-Fits :
      (scope : Option Scope) (rs : List JobRecord)
      → All (Fits scope) (outcomes_of parse_date now lookback scope reader rs)
  unfolding outcomes_of
  outcomes_of-Fits scope [] = tt
  outcomes_of-Fits scope (r ∷ rs) =
      All-append (Fits scope)
        (outcome_at now lookback scope reader r (record_timestamp parse_date r)) _
        (at (record_timestamp parse_date r), outcomes_of-Fits scope rs)
    where
      at : (m : Option ℕ) → All (Fits scope) (outcome_at now lookback scope reader r m)
      at none = tt
      at (some t) = elim (Bool-cases (is_within_lookback t now lookback)) [
        | inr n ↦ rw n tt
        | inl w ↦ rw w (elim (Bool-cases (has_field terminal_statuses r.status)) [
          | inl y ↦ rw y (outcome_of-Fits scope r t w, tt)
          | inr n ↦ rw n tt
        ])
      ]

  Standing-Fits :
      (scope : Option Scope) (os before after : List Outcome) (o : Outcome)
      → os ≡ before ++ o ∷ after
      → All (Fits scope) os
      → Fits scope o
  Standing-Fits scope os before after o e a = middle before (subst (All (Fits scope)) e a)
    where
      middle : (xs : List Outcome) → All (Fits scope) (xs ++ o ∷ after) → Fits scope o
      middle [] h = h.0
      middle (x ∷ xs) h = middle xs h.1

count_kind-middle :
    (k : Text) (before after : List Outcome) (o : Outcome)
    → o.failure_kind ≡ some k
    → 1 ≤ count_kind k (before ++ o ∷ after)
unfolding count_kind
count_kind-middle k [] after o e = ground (arith, text_eq_iff k k)
count_kind-middle k (x ∷ xs) after o e = ground (arith, count_kind-middle k xs after o e)

count_kind-le : (k : Text) (os : List Outcome) → count_kind k os ≤ length os
unfolding count_kind
count_kind-le k [] = omega arith
count_kind-le k (o ∷ os) = ground (arith, count_kind-le k os)

-- What an advice says of its failure.
pub record IsSound (now lookback : ℕ) (scope : Option Scope) (a : Advice) : Type 0 where
  pub within : is_within_lookback a.failure.timestamp now lookback ≡ true
  pub in_scope : out_of_scope scope a.failure.failure_kind ≡ false
  pub known : has breaker_failure_kinds a.failure.failure_kind ≡ true
  pub counted : 1 ≤ a.kind_count
  pub total : a.kind_count ≤ a.terminal_count

reported :
    (lookback : ℕ) (os : List Outcome) (f : Failure)
    → Hard os f ⊎ Repeated lookback os f
    → (before : List Outcome) × (o : Outcome) × (after : List Outcome) × (os ≡ before ++ o ∷ after)
      × Reports o f
reported lookback os f (inl (s, h)) = (s.before, s.outcome, s.after, s.splits, s.reports)
reported lookback os f (inr s) = (s.before, s.outcome, s.after, s.splits, s.reports)

module _ (parse_date : Text → Option ℕ) (now lookback : ℕ) (scope : Option Scope) where
  advise-IsSound :
      (os : List Outcome) (m : Option Failure) (a : Advice)
      → verdict lookback os ≡ m
      → All (Fits parse_date now lookback scope) os
      → advise os m ≡ some a
      → IsSound now lookback scope a
  advise-IsSound os none a v fits e = absurd (cc)
  advise-IsSound os (some f) a v fits e =
      let (before, o, after, splits, r) = reported lookback os f (verdict_sound lookback os f v) in
      let fit = Standing-Fits parse_date now lookback scope os before after o splits fits in
      subst (IsSound now lookback scope) (some-injective _ a e) (record {
        within = subst (λ t. is_within_lookback t now lookback ≡ true) r.3 fit.within;
        in_scope = fit.in_scope f.failure_kind r.2;
        known = fit.known f.failure_kind r.2;
        counted = rw splits (count_kind-middle f.failure_kind before after o r.2);
        total = count_kind-le f.failure_kind os;
      })

  -- An advice for an engine names a failure of the window, of a kind that opens breakers and that is in
  -- the scope asked for: never a pool's kind for the engine, never another kind for a pool. It counts the
  -- failure itself, and no more failures than terminal outcomes.
  pub latest_breaker_failure-IsSound :
      (rs : List JobRecord) (a : Advice)
      → latest_breaker_failure parse_date rs
          (engine_failure parse_date now lookback)
          now
          lookback
          scope
        ≡ some a
      → IsSound now lookback scope a
  unfolding latest_breaker_failure
  latest_breaker_failure-IsSound rs a h =
      let os =
        sort_outcomes
          (outcomes_of parse_date now lookback scope (engine_failure parse_date now lookback) rs) in
      advise-IsSound os (verdict lookback os) a refl
        (sort_outcomes-All (Fits parse_date now lookback scope) _
          (outcomes_of-Fits parse_date now lookback scope rs))
        h
