-- ===== src/Lock/Judgement.antt =====
-- When lockOwnerWasReplaced (shared/companion/record-lock.mjs) judges the owner of a lock gone.
use claude_code_fusion.Common.{
  false-ne-true, ◌≡◌, ap, ◌∙◌, inl, inr, Bool, true, some, arith, Bool-cases, Option-cases,
}
use claude_code_fusion.Common.Text.{text_eq_iff}
use claude_code_fusion.Lock.Identity.{
  Identity, Table, Owner, Runs, valid_owner, process_identities_match, get_process_identity,
  process_identity_matches, process_is_directly_alive, lock_owner_was_replaced, replaced-gone,
}

match-eq : (p q : Identity) → process_identities_match (some p) q ≡ true → p ≡ q
unfolding process_identities_match
match-eq p q h = ground (
  arith,
  text_eq_iff p.platform q.platform,
  text_eq_iff p.boot_marker q.boot_marker,
  text_eq_iff p.start_marker q.start_marker,
  text_eq_iff p.command_hash q.command_hash,
)

gone-replaced :
    (table : Table) (o : Owner)
    → valid_owner o ≡ true
    → ¬ Runs table o
    → lock_owner_was_replaced table true true o ≡ true
unfolding lock_owner_was_replaced process_identity_matches get_process_identity
    process_is_directly_alive valid_owner process_identities_match
gone-replaced table o v gone = elim (Option-cases (table o.pid)) [
  | inl n ↦ ground (arith, n)
  | inr (p, at) ↦ elim (Bool-cases (process_identities_match (some p) o.identity)) [
    | inl y ↦ absurd (gone (at ∙ ap (λ (x : Identity). some x) (match-eq p o.identity y)))
    | inr m ↦ ground (arith, at, m)
  ]
]

-- Whatever readings succeed, an owner that is judged replaced does not run; where they succeed, one that
-- does not run is judged replaced.
pub lock_owner_was_replaced-gone :
    (table : Table) (o : Owner)
    → valid_owner o ≡ true
    → ((r1 r2 : Bool) → lock_owner_was_replaced table r1 r2 o ≡ true → ¬ Runs table o)
      × (¬ Runs table o → lock_owner_was_replaced table true true o ≡ true)
lock_owner_was_replaced-gone table o v = (sound, gone-replaced table o v)
  where
    sound : (r1 r2 : Bool) → lock_owner_was_replaced table r1 r2 o ≡ true → ¬ Runs table o
    sound r1 r2 e r = false-ne-true (replaced-gone table r1 r2 o v e r)
