-- ===== src/Lock/Rivals.antt =====
-- Claims on the lock of a process that is gone (shared/companion/record-lock.mjs) and the calls they are of.
use mathlib.Core.Path.{subst}
use claude_code_fusion.Common.{ℕ, ◌≡◌, sym, ap, ◌∙◌, some}
use claude_code_fusion.Lock.Identity.{Owner, Runs}
use claude_code_fusion.Lock.Disk.{Claim, Slot}
use claude_code_fusion.Lock.Chain.{View, Chain, Chain-end}
use claude_code_fusion.Lock.Facts.{Claims}

module _ (owner : ℕ → Owner) where
  -- No two running calls have claims on one dead lock.
  pub Claims-rivals :
      (v : View) (i j : ℕ) (s r : Slot) (c d : Claim)
      → Claims owner v i s c
      → Claims owner v j r d
      → Runs v.table (owner i)
      → Runs v.table (owner j)
      → v.lock ≡ some s.target
      → v.lock ≡ some r.target
      → i ≡ j
  Claims-rivals v i j s r c d k m run_i run_j l l' =
      let same : r.target ≡ s.target = cc in
      let (n, p) = k.walked.here l in
      let (n', q) = m.walked.here l' in
      let q' : Chain owner v s.target n' r.behind =
        subst (λ (t : ℕ). Chain owner v t n' r.behind) same q in
      let at : v.slots (record { target = s.target; behind = r.behind }) ≡ some d =
        sym (ap (λ (t : ℕ). v.slots (record { target = t; behind = r.behind })) same)
        ∙ m.kept run_j l' in
      let e : c ≡ d =
        Chain-end owner v s.target n n' s.behind r.behind c d p q' (k.kept run_i l) at
          (subst (λ (x : ℕ). Runs v.table (owner x)) (sym k.own) run_i)
          (subst (λ (x : ℕ). Runs v.table (owner x)) (sym m.own) run_j) in
      sym k.own ∙ (ap (λ (x : Claim). x.maker) e ∙ m.own)
