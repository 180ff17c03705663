-- ===== src/Lock/Disk.antt =====
-- shared/companion/record-lock.mjs: the links and directories of one lock, and what its functions read
-- of them.
use mathlib.Core.Logic.{ite, dite, if_pos, if_neg}
use native.Mathlib.Decide.{ℕ_discrete}
use claude_code_fusion.Common.{
  some-injective, none-ne-some, ℕ, ◌≡◌, ◌≢◌, refl, sym, ap, Bool, true, false, Option, none, some,
  arith, ◌==◌, if◌then◌else◌,
}
use claude_code_fusion.Lock.Identity.{Owner, valid_owner}

-- The token of a claim: the call of `withRecordLock` that draws it, and which of its draws it is.
pub record Claim : Type 0 where
  pub maker : ℕ
  pub draw : ℕ

unfoldable pub Claim-discrete : Discrete Claim
Claim-discrete a b =
    dite (ℕ_discrete a.maker b.maker)
      (λ m.
        dite (ℕ_discrete a.draw b.draw) (λ d. yes (λ i. record { maker = m i; draw = d i }))
          (λ ne. no (λ e. ne (ap (λ (x : Claim). x.draw) e))))
      (λ ne. no (λ e. ne (ap (λ (x : Claim). x.maker) e)))

option_discrete : Discrete (Option Claim)
option_discrete none none = yes refl
option_discrete (some a) (some b) =
    dite (Claim-discrete a b) (λ e. yes (ap (λ (x : Claim). some x) e))
      (λ ne. no (λ e. ne (some-injective a b e)))
option_discrete none (some b) = no (none-ne-some b)
option_discrete (some a) none = no (λ e. none-ne-some a (sym e))

-- `reaperClaimSlot` for the token of a lock, and the slot behind the claim of a dead owner.
pub record Slot : Type 0 where
  pub target : ℕ
  pub behind : Option Claim

unfoldable pub Slot-discrete : Discrete Slot
unfolding Claim-discrete option_discrete
Slot-discrete r s =
    dite (ℕ_discrete r.target s.target)
      (λ t.
        dite (option_discrete r.behind s.behind)
          (λ b. yes (λ i. record { target = t i; behind = b i }))
          (λ ne. no (λ e. ne (ap (λ (x : Slot). x.behind) e))))
      (λ ne. no (λ e. ne (ap (λ (x : Slot). x.target) e)))

-- `lock` is where the link points, `owners` the owners that the directories of its tokens name, `released`
-- says in which of them `.released` stands; `slots` and `claimers` are the same of the claims.
-- The token of a lock is the number of the call that draws it: calls draw different ones.
pub record Disk : Type 0 where
  pub lock : Option ℕ
  pub owners : ℕ → Option Owner
  pub released : ℕ → Bool
  pub slots : Slot → Option Claim
  pub claimers : Slot → Claim → Option Owner

-- `lockTargetsToken` for the lock.
unfoldable pub lock_targets_token : Disk → ℕ → Bool
lock_targets_token d t = elim d.lock [ none ↦ false | some u ↦ u == t ]

-- `lockTargetsToken` for a slot.
unfoldable pub slot_targets_token : Disk → Slot → Claim → Bool
slot_targets_token d s c = elim (d.slots s) [
  | none ↦ false
  | some x ↦ ite (Claim-discrete x c) true false
]

abbrev valid_record {ℓ} : {A : Type ℓ} → A → Option Owner → Option (A × Owner)
valid_record a none = none
valid_record a (some o) = if valid_owner o then some (a, o) else none

-- `readLockRecord` through the link of the lock.
unfoldable pub read_lock_record : Disk → Option (ℕ × Owner)
read_lock_record d = elim d.lock [ none ↦ none | some t ↦ valid_record t (d.owners t) ]

-- `readLockRecord` through the link of a slot.
unfoldable pub read_slot_record : Disk → Slot → Option (Claim × Owner)
read_slot_record d s = elim (d.slots s) [ none ↦ none | some c ↦ valid_record c (d.claimers s c) ]

module _ {ℓ κ} {K : Type ℓ} {A : Type κ} (dec : Discrete K) where
  unfoldable pub update : K → A → (K → A) → K → A
  update k a f j = ite (dec k j) a (f j)

  pub update_same : (k : K) (a : A) (f : K → A) → update k a f k ≡ a
  unfolding update
  update_same k a f = if_pos (dec k k) refl a (f k)

  pub update_other : (k : K) (a : A) (f : K → A) (j : K) → k ≢ j → update k a f j ≡ f j
  unfolding update
  update_other k a f j ne = if_neg (dec k j) ne a (f j)

unfoldable pub link_lock : ℕ → Disk → Disk
link_lock t d = record d { lock = some t }

unfoldable pub unlink_lock : Disk → Disk
unlink_lock d = record d { lock = none }

unfoldable pub put_owner : ℕ → Owner → Disk → Disk
put_owner t o d = record d { owners = update ℕ_discrete t (some o) d.owners }

unfoldable pub drop_owner : ℕ → Disk → Disk
drop_owner t d = record d {
  owners = update ℕ_discrete t none d.owners;
  released = update ℕ_discrete t false d.released;
}

unfoldable pub mark_released : ℕ → Disk → Disk
mark_released t d = record d { released = update ℕ_discrete t true d.released }

unfoldable pub set_slot : Slot → Option Claim → Disk → Disk
set_slot s c d = record d { slots = update Slot-discrete s c d.slots }

unfoldable pub set_claimer : Slot → Claim → Option Owner → Disk → Disk
set_claimer s c o d = record d {
  claimers = update Slot-discrete s (update Claim-discrete c o (d.claimers s)) d.claimers;
}

-- What the functions read, as equations.
pub lock_targets_token-lock : (d : Disk) (t : ℕ) → lock_targets_token d t ≡ true → d.lock ≡ some t
unfolding lock_targets_token
lock_targets_token-lock d t h = ground arith

pub slot_targets_token-slots :
    (d : Disk) (s : Slot) (c : Claim) → slot_targets_token d s c ≡ true → d.slots s ≡ some c
unfolding slot_targets_token
slot_targets_token-slots d s c h = ground arith

pub read_lock_record-owners :
    (d : Disk) (t : ℕ) (o : Owner)
    → read_lock_record d ≡ some (t, o)
    → (d.owners t ≡ some o) × (valid_owner o ≡ true)
unfolding read_lock_record
read_lock_record-owners d t o h = ground arith

pub read_slot_record-claimers :
    (d : Disk) (s : Slot) (c : Claim) (o : Owner)
    → read_slot_record d s ≡ some (c, o)
    → (d.claimers s c ≡ some o) × (valid_owner o ≡ true)
unfolding read_slot_record
read_slot_record-claimers d s c o h = ground arith
