-- ===== src/Worker/Collected.antt =====
-- plugins/fusion/scripts/lib/worker-state.mjs, `markWorkerCollected`: only the first collection counts.
use mathlib.Core.Path.{subst}
use claude_code_fusion.Common.{
  ◌≡◌, refl, ap, ◌∙◌, inl, inr, Bool, not, ◌&&◌, ◌||◌, Option, none, some, arith, or_else, is_some,
  Bool-cases, Option-cases,
}
use claude_code_fusion.Common.Text.{Text, codes, has}
use claude_code_fusion.Worker.Records.{WorkerRecord}
use claude_code_fusion.Worker.Budget.{is_type}
use claude_code_fusion.Worker.Verdicts.{
  is_given, collection_methods, canonical_collection_method, either_text, awaits_verdict,
  collected_by, collected_or_none, mark_worker_collected,
}

awaiting_eq :
    (a b w : Bool) (c : Option Text) (at : Text)
    → (a && b && ((a && b && (w || not (is_given c))) || not (is_given (some (or_else c at)))))
      ≡ (a && b && (w || not (is_given c)))
awaiting_eq a b w none at = ground arith
awaiting_eq a b w (some t) at = ground arith

awaits_verdict-collected_by :
    (known at : Text) (r : WorkerRecord)
    → awaits_verdict (collected_by known at r) ≡ awaits_verdict r
unfolding awaits_verdict collected_by
awaits_verdict-collected_by known at r =
    awaiting_eq (is_type r.acceptance (codes "unverified")) (not (is_some r.acceptance_recorded_at))
      r.awaiting_verdict r.collected_at at

collected_by_twice :
    (known at later : Text) (r : WorkerRecord)
    → collected_by known later (collected_by known at r) ≡ collected_by known at r
unfolding collected_by
collected_by_twice known at later r = elim (Bool-cases (awaits_verdict r)) [
  | inl y ↦ rw (awaits_verdict-collected_by known at r, y) refl
  | inr n ↦ rw (awaits_verdict-collected_by known at r, n) refl
]

some_eq : {x y : WorkerRecord} → some x ≡ some y → x ≡ y
some_eq {x} h = ap (λ o. or_else o x) h

text_some_eq : {x y : Text} → some x ≡ some y → x ≡ y
text_some_eq {x} h = ap (λ o. or_else o x) h

canonical_lem :
    (o : Option Text) (known : Text)
    → canonical_collection_method o ≡ some known
    → canonical_collection_method (some known) ≡ some known
unfolding canonical_collection_method
canonical_lem none known h = absurd (ground arith)
canonical_lem (some t) known h = elim (Bool-cases (has collection_methods t)) [
  | inl y ↦
      subst (λ x. canonical_collection_method (some x) ≡ some x) (text_some_eq (simp y at h))
        (rw y refl)
  | inr n ↦ absurd (ground (arith, n, h))
]

known_lem :
    (o p : Option Text) (known : Text)
    → either_text (canonical_collection_method o) (canonical_collection_method p) ≡ some known
    → canonical_collection_method (some known) ≡ some known
known_lem o p known h = elim (Option-cases (canonical_collection_method o)) [
  | inl n ↦
      canonical_lem p known
        (subst (λ x. either_text x (canonical_collection_method p) ≡ some known) n h)
  | inr (t, e) ↦
      canonical_lem o known
        (e ∙ subst (λ x. either_text x (canonical_collection_method p) ≡ some known) e h)
]

collected_lem :
    (known : Text) (other : Option Text) (at later : Text) (r : WorkerRecord)
    → canonical_collection_method (some known) ≡ some known
    → mark_worker_collected other later (collected_by known at r) ≡ some (collected_by known at r)
unfolding mark_worker_collected collected_by
collected_lem known other at later r k =
    ap
      (λ o.
        collected_or_none (either_text o (canonical_collection_method other)) later
          (collected_by known at r))
      k
    ∙ ap some (collected_by_twice known at later r)

-- The first collection counts: another one, by whatever method and at whatever time, changes nothing.
mark_worker_collected_twice :
    (method other : Option Text) (at later : Text) (r t : WorkerRecord)
    → mark_worker_collected method at r ≡ some t
    → mark_worker_collected other later t ≡ some t
unfolding mark_worker_collected
mark_worker_collected_twice method other at later r t h =
    elim (Option-cases (
      either_text (canonical_collection_method r.collection_method)
        (canonical_collection_method method))) [
          | inl n ↦ absurd (ground (arith, n, h))
          | inr (known, e) ↦
              subst (λ x. mark_worker_collected other later x ≡ some x)
                (some_eq (subst (λ o. collected_or_none o at r ≡ some t) e h))
                (collected_lem known other at later r
                  (known_lem r.collection_method method known e))
        ]
