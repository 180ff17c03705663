-- ===== src/Lock/Tests.antt =====
-- The lock of shared/companion/record-lock.mjs at concrete inputs.
use claude_code_fusion.Common.{
  ℕ, ◌≡◌, ◌⊎◌, refl, Bool, true, false, none, some, [], ◌∷◌, ◌+◌, ◌==◌, any, if◌then◌else◌, ltb,
  leb, ◌&&◌, ◌-◌,
}
use claude_code_fusion.Common.Text.{codes}
use claude_code_fusion.Lock.Identity.{
  Identity, Table, Owner, Runs, valid_owner, valid_process_identity, process_identities_match,
  process_identity_matches, get_process_identity, process_is_directly_alive,
  lock_owner_was_replaced,
}
use claude_code_fusion.Lock.Disk.{Disk, read_lock_record, read_slot_record}
use claude_code_fusion.Lock.Recovery.{Passable, takes_over}
use claude_code_fusion.Lock.Alone.{Alone}
use claude_code_fusion.Lock.Judgement.{lock_owner_was_replaced-gone}
use claude_code_fusion.Lock.Calls.{Pc, seen_before}
use claude_code_fusion.Lock.System.{Step}
use claude_code_fusion.Lock.Exclusion.{mutual_exclusion, lock_stays}
use claude_code_fusion.Lock.Schedule.{Run, go_on, fails, exits_at, run}

abbrev process : ℕ → Identity
process n = record {
  version = 1;
  platform = codes "linux";
  boot_marker = codes "b";
  start_marker = n ∷ [];
  command_hash = codes "c";
}

-- Call `i` is made by the process with the number `i + 10`.
abbrev caller : ℕ → Owner
caller i = record { pid = i + 10; identity = process i }

abbrev callers : Table
callers pid = if leb 10 pid && ltb pid 14 then some (process (pid - 10)) else none

abbrev taken : Run caller true callers
taken = run caller true callers (go_on 0 3 ∷ [])

-- Call 0 holds the lock and its process exits; call 1 reaps the lock, takes it and gives it back.
abbrev recovered : Run caller true callers
recovered = run caller true callers (go_on 0 3 ∷ exits_at 10 ∷ go_on 1 22 ∷ [])

abbrev given_back : Run caller true callers
given_back = run caller true callers (go_on 0 3 ∷ exits_at 10 ∷ go_on 1 27 ∷ [])

-- Call 3 has found the claim of call 1 when call 1 meets an error and gives its claim back, and its process
-- exits. Call 2 puts its own claim there; call 3 judges the owner of the claim that it found.
abbrev raced : Run caller false callers
raced = run caller false callers (
    go_on 0 3
    ∷ exits_at 10
    ∷ go_on 1 15
    ∷ go_on 3 10
    ∷ fails 1
    ∷ go_on 1 3
    ∷ exits_at 11
    ∷ go_on 2 15
    ∷ go_on 3 10
    ∷ go_on 2 7
    ∷ go_on 3 7
    ∷ [])

taken_test : taken.last.pc 0 ≡ Pc.inside
unfolding run
taken_test = refl

recovered_test : (recovered.last.pc 1 ≡ Pc.inside) × (recovered.last.disk.lock ≡ some 1)
unfolding run
recovered_test = (refl, refl)

given_back_test : (given_back.last.pc 1 ≡ Pc.done) × (given_back.last.disk.lock ≡ none)
unfolding run
given_back_test = (refl, refl)

-- Without the condition of `mutual_exclusion` two running calls are in their callbacks.
raced_test :
    (raced.last.pc 2 ≡ Pc.inside)
    × (raced.last.pc 3 ≡ Pc.inside)
    × Runs raced.last.table (caller 2)
    × Runs raced.last.table (caller 3)
unfolding run any
raced_test = (refl, refl, refl, refl)

mutual_exclusion_example : (◌≡◌ {A = ℕ} 1 1) × (recovered.last.disk.lock ≡ some 1)
unfolding run
mutual_exclusion_example =
    mutual_exclusion caller callers recovered.last recovered.reach (recovered.tight refl) 1 1 refl
      refl refl refl

lock_stays_example :
    (recovered.last.disk.lock ≡ some 1)
    ⊎ ((recovered.last.pc 1 ≡ Pc.unlocking) × (recovered.last.pc 1 ≡ Pc.unlocked))
unfolding run
lock_stays_example =
    lock_stays caller callers recovered.last _ 1 recovered.reach (recovered.tight refl) refl refl
      (Step.exits 12)

-- The lock of call 0, whose process is gone, stands with a claim on it of call 1, whose process is gone too.
abbrev abandoned : Disk
abandoned = record {
  lock = some 0;
  owners = λ t. if t == 0 then some (caller 0) else none;
  released = λ _. false;
  slots = λ s.
      if s.target == 0
      then elim s.behind [ none ↦ some (record { maker = 1; draw = 0 }) | some _ ↦ none ]
      else none;
  claimers = λ _ _. some (caller 1);
}

abbrev survivors : Table
survivors pid = if leb 12 pid then callers pid else none

takes_over_example :
    ((e : Disk) × Alone survivors 2 (caller 2) abandoned Pc.waiting e Pc.inside)
    × ((e : Disk) → Alone survivors 2 (caller 2) abandoned Pc.waiting e Pc.inside → e.lock ≡ some 2)
unfolding read_lock_record read_slot_record lock_owner_was_replaced process_identity_matches
    get_process_identity process_identities_match process_is_directly_alive valid_owner
    valid_process_identity seen_before any
takes_over_example = takes_over survivors 2 (caller 2) abandoned 0 1 (caller 0) refl refl refl (
    Passable.behind (record { maker = 1; draw = 0 }) (caller 1) refl refl refl refl
      (Passable.free refl))

lock_owner_was_replaced-gone_example :
    ((r1 r2 : Bool)
      → lock_owner_was_replaced survivors r1 r2 (caller 0) ≡ true
      → ¬ Runs survivors (caller 0))
    × (¬ Runs survivors (caller 0) → lock_owner_was_replaced survivors true true (caller 0) ≡ true)
unfolding valid_owner valid_process_identity
lock_owner_was_replaced-gone_example = lock_owner_was_replaced-gone survivors (caller 0) refl
