-- ===== src/Lock/Schedule.antt =====
-- Runs of withRecordLock (shared/companion/record-lock.mjs) by evaluation: calls that go on in a given order,
-- and processes that exit.
use mathlib.Core.Logic.{dite}
use mathlib.Core.Path.{subst}
use native.Mathlib.Decide.{ℕ_discrete}
use claude_code_fusion.Common.{
  ℕ, zero, suc, ◌≡◌, refl, sym, ap, ◌∙◌, Bool, true, Option, none, some, List, [], ◌∷◌,
}
use claude_code_fusion.Lock.Identity.{
  Identity, Table, Owner, Runs, process_identity_matches, process_identities_match,
  get_process_identity, valid_process_identity,
}
use claude_code_fusion.Lock.Disk.{
  Claim-discrete, Slot-discrete, update, link_lock, unlink_lock, put_owner, drop_owner,
  mark_released, set_slot, set_claimer,
}
use claude_code_fusion.Lock.Claims.{Reclaim}
use claude_code_fusion.Lock.Calls.{Pc, Outcome, refused, ended}
use claude_code_fusion.Lock.System.{
  System, Move, IsTight, moves, exits, Reach, TightRun, start, later,
}
use claude_code_fusion.Lock.Turn.{next}

pub data Event : Type 0 where
  go_on : (i n : ℕ) → Event  -- call `i` takes `n` steps
  fails : (i : ℕ) → Event
  exits_at : (pid : ℕ) → Event

Identity-discrete : Discrete Identity
Identity-discrete = hlevel ℕ_discrete

module _ (owner : ℕ → Owner) (strict : Bool) (table : Table) where
  pub record Run : Type 0 where
    pub last : System
    pub reach : Reach owner table last
    pub tight : strict ≡ true → TightRun reach

  -- The process of call `i` runs, or nothing is done.
  running : (i : ℕ) (r : Run) → (Runs r.last.table (owner i) → Run) → Run
  running i r f = found (r.last.table (owner i).pid) refl
    where
      found : (o : Option Identity) → r.last.table (owner i).pid ≡ o → Run
      found none e = r
      found (some p) e =
          dite (Identity-discrete p (owner i).identity)
            (λ same. f (e ∙ ap (λ (x : Identity). some x) same)) (λ ne. r)

  -- Call `i` takes its next step.
  turn : ℕ → Run → Run
  unfolding running next
  turn i r = running i r (λ run.
      elim (next strict r.last.table i (owner i) r.last.disk (r.last.pc i)) [
        | none ↦ r
        | some n ↦ record {
          last = _;
          reach = later r.reach (moves i run n.move);
          tight = λ w. (r.tight w, n.tight w);
        }
      ])

  turns : ℕ → ℕ → Run → Run
  unfolding turn
  turns i zero r = r
  turns i (suc n) r = turns i n (turn i r)

  -- Call `i`, in front of the lock of a dead owner, meets an error as it unlinks it.
  fault : ℕ → Run → Run
  unfolding running
  fault i r = running i r (λ run. fails run (r.last.pc i) refl)
    where
      fails : Runs r.last.table (owner i) → (p : Pc) → r.last.pc i ≡ p → Run
      fails run (Pc.poised s c) e =
          let (m, w) =
            subst
              (λ (q : Pc).
                (m : Move r.last.table i (owner i) r.last.disk q r.last.disk
                  (Pc.dropping Outcome.thrown s c))
                × IsTight m)
              (sym e) (Move.reclaims Reclaim.reap_throws, tt) in
          record { last = _; reach = later r.reach (moves i run m); tight = λ s. (r.tight s, w) }
      fails run p e = r

  exit : ℕ → Run → Run
  exit pid r = record { last = _; reach = later r.reach (exits pid); tight = λ w. (r.tight w, tt) }

  play : List Event → Run → Run
  unfolding turns fault exit
  play [] r = r
  play (go_on i n ∷ rest) r = play rest (turns i n r)
  play (fails i ∷ rest) r = play rest (fault i r)
  play (exits_at pid ∷ rest) r = play rest (exit pid r)

  unfoldable pub run : List Event → Run
  unfolding play Identity-discrete ℕ_discrete update Claim-discrete Slot-discrete link_lock
      unlink_lock put_owner drop_owner mark_released set_slot set_claimer refused ended
      process_identity_matches process_identities_match get_process_identity valid_process_identity
  run es = play es (record { last = _; reach = start; tight = λ _. tt })
