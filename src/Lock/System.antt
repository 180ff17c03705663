-- ===== src/Lock/System.antt =====
-- Calls of withRecordLock (shared/companion/record-lock.mjs) in any number of processes, interleaved in any
-- order, with processes that exit at any point and new ones that start.
use native.Mathlib.Decide.{ℕ_discrete}
use claude_code_fusion.Common.{Bool, true, none, some, ℕ, ◌≡◌, false}
use claude_code_fusion.Lock.Identity.{Table, Owner, Runs}
use claude_code_fusion.Lock.Disk.{slot_targets_token, Disk, update}
use claude_code_fusion.Lock.Calls.{Pc, Wait, Release}
use claude_code_fusion.Lock.Claims.{Acquire, Reclaim}

-- One step of call `i`, whose process is `mine`.
pub data Move (table : Table) (i : ℕ) (mine : Owner) (d : Disk) : Pc → Disk → Pc → Type 0 where
  waits : {p : Pc} {e : Disk} {q : Pc} → Wait table i mine d p e q → Move table i mine d p e q
  acquires : {p : Pc} {e : Disk} {q : Pc} → Acquire table i mine d p e q → Move table i mine d p e q
  reclaims : {p : Pc} {e : Disk} {q : Pc} → Reclaim table i mine d p e q → Move table i mine d p e q
  releases : {p : Pc} {e : Disk} {q : Pc} → Release table i mine d p e q → Move table i mine d p e q

-- When the walk passes by a claim, whose owner is judged replaced, the slot still points to that claim.
abbrev pub IsTight :
    {table : Table} {i : ℕ} {mine : Owner} {d e : Disk} {p q : Pc}
    → Move table i mine d p e q
    → Type 0
IsTight {d = d} (acquires (Acquire.claim_passed {s} {c} _ _ _ _)) = slot_targets_token d s c ≡ true
IsTight _ = Unit

pub record System : Type 0 where
  pub disk : Disk
  pub table : Table
  pub pc : ℕ → Pc

abbrev no_files : Disk
no_files = record {
  lock = none;
  owners = λ _. none;
  released = λ _. false;
  slots = λ _. none;
  claimers = λ _ _. none;
}

abbrev pub init : Table → System
init table = record { disk = no_files; table = table; pc = λ _. Pc.outside }

-- `owner i` is the process that makes call `i`. A process that has made a call is told from every later one
-- by its identity.
pub data Step (owner : ℕ → Owner) (s : System) : System → Type 0 where
  moves :
      (i : ℕ) {d : Disk} {p : Pc}
      → Runs s.table (owner i)
      → Move s.table i (owner i) s.disk (s.pc i) d p
      → Step owner s (record { disk = d; table = s.table; pc = update ℕ_discrete i p s.pc })
  exits : (pid : ℕ) → Step owner s (record s { table = update ℕ_discrete pid none s.table })
  spawns :
      (o : Owner)
      → ((i : ℕ) → owner i ≡ o → s.pc i ≡ Pc.outside)
      → s.table o.pid ≡ none
      → Step owner s (record s { table = update ℕ_discrete o.pid (some o.identity) s.table })

pub data Reach (owner : ℕ → Owner) (table : Table) : System → Type 0 where
  start : Reach owner table (init table)
  later : {s t : System} → Reach owner table s → Step owner s t → Reach owner table t

module _ {owner : ℕ → Owner} where
  abbrev pub TightStep : {s t : System} → Step owner s t → Type 0
  TightStep (moves i r m) = IsTight m
  TightStep (exits pid) = Unit
  TightStep (spawns o fresh free) = Unit

  -- So it is in every step of a run.
  abbrev pub TightRun : {table : Table} {s : System} → Reach owner table s → Type 0
  TightRun start = Unit
  TightRun (later r m) = TightRun r × TightStep m

-- The callback runs, or has run and its lock is not yet given back.
abbrev pub holds : Pc → Bool
holds Pc.inside = Bool.true
holds Pc.releasing = Bool.true
holds Pc.unlocking = Bool.true
holds _ = false
