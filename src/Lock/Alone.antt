-- ===== src/Lock/Alone.antt =====
-- What a call of withRecordLock (shared/companion/record-lock.mjs) does while no other call moves: it takes
-- a free lock and gives a lock back.
use claude_code_fusion.Common.{ℕ, ◌≡◌, refl, true, none, some, arith}
use claude_code_fusion.Lock.Identity.{Table, Owner, valid_owner}
use claude_code_fusion.Lock.Disk.{
  Claim, Slot, Disk, lock_targets_token, slot_targets_token, link_lock, put_owner,
}
use claude_code_fusion.Lock.System.{Move}
use claude_code_fusion.Lock.Calls.{Wait, Pc}

module _ (table : Table) (i : ℕ) (mine : Owner) where
  -- Steps of the one call, with nothing between them.
  pub data Alone : Disk → Pc → Disk → Pc → Type 0 where
    here : {d : Disk} {p : Pc} → Alone d p d p
    next : {d e f : Disk} {p q r : Pc} → Move table i mine d p e q → Alone e q f r → Alone d p f r

  pub also : {d e f : Disk} {p q r : Pc} → Alone d p e q → Alone e q f r → Alone d p f r
  also here b = b
  also (next m a) b = next m (also a b)

  pub targets : (d : Disk) (t : ℕ) → d.lock ≡ some t → lock_targets_token d t ≡ true
  unfolding lock_targets_token
  targets d t l = ground arith

  pub slot_targets :
      (d : Disk) (s : Slot) (c : Claim) → d.slots s ≡ some c → slot_targets_token d s c ≡ true
  unfolding slot_targets_token
  slot_targets d s c l = ground arith

  -- What holds of the disk while a call that had the lock gives it back.
  abbrev Leaving : Disk → Pc → Type 0
  Leaving d Pc.inside = d.lock ≡ some i
  Leaving d Pc.releasing = d.lock ≡ some i
  Leaving d Pc.unlocking = d.lock ≡ some i
  Leaving d Pc.unlocked = d.lock ≡ none
  Leaving d (Pc.leaving swept) = (d.lock ≡ none) × (d.owners i ≡ none)
  Leaving d Pc.done = (d.lock ≡ none) × (d.owners i ≡ none)
  Leaving d _ = ⊥

  -- A call that finds no lock has it in its callback.
  takes :
      (d : Disk)
      → valid_owner mine ≡ true
      → d.lock ≡ none
      → (e : Disk) × Alone d Pc.outside e Pc.inside × (e.lock ≡ some i)
  unfolding put_owner link_lock
  takes d v free = (
    _,
    next (Move.waits (Wait.begins v))
        (next (Move.waits Wait.prepares) (next (Move.waits (Wait.publishes free)) here)),
    refl,
  )
