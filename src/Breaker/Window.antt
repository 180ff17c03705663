-- ===== src/Breaker/Window.antt =====
-- plugins/fusion/scripts/breaker-check.mjs: what an open breaker says of the outcomes.
use mathlib.Core.Path.{subst}
use mathlib.Core.List.{append-nil, append_assoc}
use claude_code_fusion.Common.{
  ℕ, ◌≡◌, refl, ap, ◌∙◌, ◌⊎◌, inl, inr, Bool, true, false, Option, none, some, List, [], ◌∷◌, ◌++◌,
  arith, if◌then◌else◌, All, Bool-cases,
}
use claude_code_fusion.Common.Text.{Text, text_eq_iff, has}
use claude_code_fusion.Breaker.Kinds.{repeated_failure_kinds}
use claude_code_fusion.Breaker.Records.{Failure}
use claude_code_fusion.Breaker.Latest.{
  Outcome, Breaker, closed, failure_with, breaker_step, run_breaker, newer_failure, verdict,
  repeats, fail_step,
}
use claude_code_fusion.Breaker.Standing.{
  NoSuccess, Reports, is_hard, Standing, Hard, Transient, Repeated,
}

abbrev Holds : (Failure → Type 0) → Option Failure → Type 0
Holds P none = Unit
Holds P (some f) = P f

record Inv (lookback : ℕ) (os : List Outcome) (b : Breaker) : Type 0 where
  immediate : Holds (Hard os) b.immediate
  previous : Holds (Transient os) b.previous
  repeated : Holds (Repeated lookback os) b.repeated

All-snoc {ℓ} :
    {A : Type 0} (P : A → Type ℓ) (xs : List A) (x : A) → All P xs → P x → All P (xs ++ x ∷ [])
All-snoc P [] x h p = (p, tt)
All-snoc P (y ∷ ys) x h p = (h.0, All-snoc P ys x h.1 p)

Standing-new :
    (os : List Outcome) {f : Failure} (o : Outcome) → Reports o f → Standing (os ++ o ∷ []) f
Standing-new os o r = record {
  before = os;
  outcome = o;
  after = [];
  splits = refl;
  reports = r;
  no_success = tt;
}

module _ {os : List Outcome} {f : Failure} (o : Outcome) where
  Standing-snoc : Standing os f → NoSuccess o → Standing (os ++ o ∷ []) f
  Standing-snoc s n = record {
    before = s.before;
    outcome = s.outcome;
    after = s.after ++ o ∷ [];
    splits = ap (λ x. x ++ o ∷ []) s.splits ∙ append_assoc s.before (s.outcome ∷ s.after) (o ∷ []);
    reports = s.reports;
    no_success = All-snoc NoSuccess s.after o s.no_success n;
  }

  Repeated-snoc :
      (lookback : ℕ) → Repeated lookback os f → NoSuccess o → Repeated lookback (os ++ o ∷ []) f
  Repeated-snoc lookback s n = record {
    before = s.before;
    outcome = s.outcome;
    after = s.after ++ o ∷ [];
    splits = ap (λ x. x ++ o ∷ []) s.splits ∙ append_assoc s.before (s.outcome ∷ s.after) (o ∷ []);
    reports = s.reports;
    no_success = All-snoc NoSuccess s.after o s.no_success n;
    first = s.first;
    first_stands = s.first_stands;
    same = s.same;
    near = s.near;
  }

Holds-map :
    {P Q : Failure → Type 0} (m : Option Failure)
    → ((f : Failure) → P f → Q f)
    → Holds P m
    → Holds Q m
Holds-map none g h = tt
Holds-map (some f) g h = g f h

module _ (lookback : ℕ) (os : List Outcome) (b : Breaker) (o : Outcome) (i : Inv lookback os b)
    (n : NoSuccess o) where
  immediate-snoc : Holds (Hard (os ++ o ∷ [])) b.immediate
  immediate-snoc = Holds-map b.immediate (λ f h. (Standing-snoc o h.0 n, h.1)) i.immediate

  repeated-snoc : Holds (Repeated lookback (os ++ o ∷ [])) b.repeated
  repeated-snoc = Holds-map b.repeated (λ f h. Repeated-snoc o lookback h n) i.repeated

  kept-Inv : Inv lookback (os ++ o ∷ []) b
  kept-Inv = record {
    immediate = immediate-snoc;
    previous = Holds-map b.previous (λ f h. (Standing-snoc o h.0 n, h.1, h.2)) i.previous;
    repeated = repeated-snoc;
  }

  dropped-Inv : Inv lookback (os ++ o ∷ []) (record b { previous = none; repeated = none })
  dropped-Inv = record { immediate = immediate-snoc; previous = tt; repeated = tt }

  hard-Inv :
      (k : Text)
      → Reports o (failure_with k o)
      → is_hard k ≡ true
      → Inv lookback
          (os ++ o ∷ [])
          (record { immediate = some (failure_with k o); previous = none; repeated = none })
  hard-Inv k r h = record { immediate = (Standing-new os o r, h); previous = tt; repeated = tt }

  repeated-new :
      (k : Text) (p : Option Failure)
      → Reports o (failure_with k o)
      → Holds (Transient os) p
      → Holds
          (Repeated lookback (os ++ o ∷ []))
          (if repeats lookback k o p then some (failure_with k o) else b.repeated)
  repeated-new k none r h = repeated-snoc
  repeated-new k (some p) r h = elim (Bool-cases (repeats lookback k o (some p))) [
    | inr no_repeat ↦ rw no_repeat repeated-snoc
    | inl repeat ↦ rw repeat (record {
      before = os;
      outcome = o;
      after = [];
      splits = refl;
      reports = r;
      no_success = tt;
      first = p;
      first_stands = h;
      same = ground (arith, text_eq_iff p.failure_kind k);
      near = ground arith;
    })
  ]

  transient-Inv :
      (k : Text)
      → Reports o (failure_with k o)
      → is_hard k ≡ false
      → has repeated_failure_kinds k ≡ true
      → Inv lookback (os ++ o ∷ []) (record b {
        previous = some (failure_with k o);
        repeated = if repeats lookback k o b.previous then some (failure_with k o) else b.repeated;
      })
  transient-Inv k r h t = record {
    immediate = immediate-snoc;
    previous = (Standing-new os o r, h, t);
    repeated = repeated-new k b.previous r i.previous;
  }

  fail_step-Inv :
      (m : Option Text)
      → o.failure_kind ≡ m
      → o.ignored ≡ false
      → Inv lookback (os ++ o ∷ []) (fail_step lookback b o m)
  fail_step-Inv none e g = dropped-Inv
  fail_step-Inv (some k) e g = elim (Bool-cases (is_hard k)) [
    | inl h ↦ rw h (hard-Inv k (n, g, e, refl, refl) h)
    | inr h ↦ rw h (elim (Bool-cases (has repeated_failure_kinds k)) [
      | inl t ↦ rw t (transient-Inv k (n, g, e, refl, refl) h t)
      | inr u ↦ rw u dropped-Inv
    ])
  ]

breaker_step-Inv :
    (lookback : ℕ) (os : List Outcome) (b : Breaker) (o : Outcome)
    → Inv lookback os b
    → Inv lookback (os ++ o ∷ []) (breaker_step lookback b o)
unfolding breaker_step
breaker_step-Inv lookback os b o i = go o.succeeded o.ignored refl refl
  where
    go :
        (y g : Bool)
        → o.succeeded ≡ y
        → o.ignored ≡ g
        → Inv lookback
            (os ++ o ∷ [])
            (if y then closed else if g then b else fail_step lookback b o o.failure_kind)
    go true g e f = record { immediate = tt; previous = tt; repeated = tt }
    go false true e f = kept-Inv lookback os b o i e
    go false false e f = fail_step-Inv lookback os b o i e o.failure_kind refl f

run_breaker-Inv :
    (lookback : ℕ) (rest os : List Outcome) (b : Breaker)
    → Inv lookback os b
    → Inv lookback (os ++ rest) (run_breaker lookback b rest)
unfolding run_breaker
run_breaker-Inv lookback [] os b i = rw append-nil i
run_breaker-Inv lookback (o ∷ rest) os b i = rw (← append_assoc os (o ∷ []) rest) (
    run_breaker-Inv lookback rest (os ++ o ∷ []) (breaker_step lookback b o)
      (breaker_step-Inv lookback os b o i))

newer_failure-cases :
    (m r : Option Failure) {f : Failure} → newer_failure m r ≡ some f → (m ≡ some f) ⊎ (r ≡ some f)
unfolding newer_failure
newer_failure-cases m r h = ground arith

-- An open breaker names a failure with no success behind it: a hard one, or the second of two of one
-- transient kind, at most the lookback apart, with no success behind either.
pub verdict_sound :
    (lookback : ℕ) (os : List Outcome) (f : Failure)
    → verdict lookback os ≡ some f
    → Hard os f ⊎ Repeated lookback os f
unfolding verdict
verdict_sound lookback os f h =
    let i =
      run_breaker-Inv lookback os [] closed
        (record { immediate = tt; previous = tt; repeated = tt }) in
    let b = run_breaker lookback closed os in
    elim (newer_failure-cases b.immediate b.repeated h) [
      | inl e ↦ inl (subst (Holds (Hard os)) e i.immediate)
      | inr e ↦ inr (subst (Holds (Repeated lookback os)) e i.repeated)
    ]
