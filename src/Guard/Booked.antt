-- ===== src/Guard/Booked.antt =====
-- plugins/fusion/scripts/lib/guard/dispatch-events.mjs and write-events.mjs: the books that the guard
-- keeps on the dispatches and the pending writes of a session.
use claude_code_fusion.Common.{
  ℕ, suc, ◌≤◌, ◌≡◌, refl, Bool, not, ◌&&◌, Option, none, some, List, [], ◌∷◌, ltb, arith, ◌==◌, inl,
  inr, Bool-cases, Option-cases, All, All-append, length,
}
use claude_code_fusion.Common.Text.{Text, has}
use claude_code_fusion.Guard.Settings.{Settings}
use claude_code_fusion.Guard.State.{
  PendingWrite, GuardState, dispatch_log_limit, last_entries, normalize_state, total_dispatches,
  reset_write_window,
}
use claude_code_fusion.Guard.Write.{
  Write, Relief, is_pending, relief_of, is_due, count_write, advise_write, is_tail, pending_of,
  decide_write,
}
use claude_code_fusion.Guard.Settle.{
  Outcome, succeeded, failed, take_pending, confirm_write, refund_write, shrink_window,
  settle_entry, settle_taken, settle_write,
}
use claude_code_fusion.Guard.Dispatch.{
  Dispatch, confirm_launched, lane_of, launch_dispatch, confirm_dispatch,
}
use claude_code_fusion.Guard.Verify.{verify_window}
use claude_code_fusion.Guard.Calls.{HookCall, claim_advisory}
use claude_code_fusion.Guard.Bytes.{Host}
use claude_code_fusion.Guard.Limits.{OnFile}
use claude_code_fusion.Guard.Kept.{Kept, run_hooks, run_hooks-OnFile}
use claude_code_fusion.Guard.Refunds.{AllTaken, take_pending-AllTaken}
use claude_code_fusion.Guard.Budget.{total-count_dispatch}
use claude_code_fusion.Guard.Ledger.{
  last_entries-length_le, pruned-length_le, confirm_launched-IsSized, log_of-length_le,
}

abbrev OfPast : ℕ → PendingWrite → Type 0
OfPast epoch p = p.epoch ≤ epoch

-- The log is within its limit, each dispatch that was counted ended a window, and no write that is
-- pending is of a window to come.
pub record IsBooked (s : GuardState) : Type 0 where
  pub log : length s.dispatch_log ≤ dispatch_log_limit
  pub epoch : total_dispatches s.dispatches ≡ s.dispatch_epoch
  pub pending : All (OfPast s.dispatch_epoch) s.pending_writes

default_state-IsBooked : (now : ℕ) → IsBooked (normalize_state none now)
unfolding normalize_state total_dispatches
default_state-IsBooked now = record { log = omega arith; epoch = refl; pending = tt }

normalize_state-IsBooked :
    (s : GuardState) (now : ℕ) → IsBooked s → IsBooked (normalize_state (some s) now)
unfolding normalize_state
normalize_state-IsBooked s now h = record {
  log = omega (
    arith,
    pruned-length_le (last_entries s.dispatch_log) now,
    last_entries-length_le s.dispatch_log,
  );
  epoch = h.epoch;
  pending = h.pending;
}

pending_of-OfPast :
    (w : Write) (epoch : ℕ) (tail : Bool) (id : Option Text)
    → All (OfPast epoch) (pending_of w epoch tail id)
pending_of-OfPast w epoch tail none = tt
pending_of-OfPast w epoch tail (some id) = (omega arith, tt)

count_write-IsBooked :
    (w : Write) (relief : Option Relief) (s : GuardState)
    → IsBooked s
    → IsBooked (count_write w relief s)
unfolding count_write
count_write-IsBooked w relief s h = record {
  log = h.log;
  epoch = h.epoch;
  pending =
      All-append (OfPast s.dispatch_epoch) s.pending_writes _
        (h.pending, pending_of-OfPast w s.dispatch_epoch (is_tail relief) w.id);
}

advise_write-IsBooked :
    (cfg : Settings) (s : GuardState) → IsBooked s → IsBooked (advise_write cfg s)
unfolding advise_write
advise_write-IsBooked cfg s h =
    elim (Bool-cases (is_due cfg s.writes_since_dispatch s.advised_multiples)) [
      | inl y ↦ rw y (record { log = h.log; epoch = h.epoch; pending = h.pending })
      | inr n ↦ rw n h
    ]

decide_write-IsBooked :
    (cfg : Settings) (w : Write) (s : GuardState)
    → IsBooked s
    → OnFile IsBooked (decide_write cfg w s).0
unfolding decide_write
decide_write-IsBooked cfg w s h = elim (Bool-cases (is_pending w.id w.tool s.pending_writes)) [
  | inl y ↦ rw y tt
  | inr n ↦ rw n (elim (Option-cases (relief_of cfg w s)) [
    | inl d ↦ rw d tt
    | inr (relief, e) ↦
        rw e
          (advise_write-IsBooked cfg (count_write w relief s) (count_write-IsBooked w relief s h))
  ])
]

refund_write-IsBooked :
    (budget : ℕ) (p : PendingWrite) (s : GuardState)
    → IsBooked s
    → IsBooked (refund_write budget p s)
unfolding refund_write shrink_window
refund_write-IsBooked budget p s h = elim (Bool-cases (p.epoch == s.dispatch_epoch)) [
  | inl y ↦ rw y (record { log = h.log; epoch = h.epoch; pending = h.pending })
  | inr n ↦ rw n (record { log = h.log; epoch = h.epoch; pending = h.pending })
]

confirm_write-IsBooked :
    (p : PendingWrite) (s : GuardState) → IsBooked s → IsBooked (confirm_write p s)
unfolding confirm_write
confirm_write-IsBooked p s h =
    elim (Bool-cases
      (p.epoch == s.dispatch_epoch && not (has s.confirmed_path_signatures p.signature))) [
        | inl y ↦ rw y (record { log = h.log; epoch = h.epoch; pending = h.pending })
        | inr n ↦ rw n h
      ]

settle_entry-IsBooked :
    (budget : ℕ) (outcome : Outcome) (p : PendingWrite) (s : GuardState)
    → IsBooked s
    → IsBooked (settle_entry budget outcome p s)
settle_entry-IsBooked budget succeeded p s h = confirm_write-IsBooked p s h
settle_entry-IsBooked budget failed p s h = refund_write-IsBooked budget p s h

settle_taken-IsBooked :
    (budget : ℕ) (outcome : Outcome) (s : GuardState)
    (m : Option (PendingWrite × List PendingWrite))
    → AllTaken (OfPast s.dispatch_epoch) m
    → IsBooked s
    → OnFile IsBooked (settle_taken budget outcome s m)
settle_taken-IsBooked budget outcome s none a h = tt
settle_taken-IsBooked budget outcome s (some (p, rest)) (b, more) h =
    settle_entry-IsBooked budget outcome p (record s { pending_writes = rest })
      (record { log = h.log; epoch = h.epoch; pending = more })

settle_write-IsBooked :
    (budget : ℕ) (outcome : Outcome) (id tool : Text) (s : GuardState)
    → IsBooked s
    → OnFile IsBooked (settle_write budget outcome id tool s)
unfolding settle_write
settle_write-IsBooked budget outcome id tool s h =
    settle_taken-IsBooked budget outcome s (take_pending id tool s.pending_writes)
      (take_pending-AllTaken (OfPast s.dispatch_epoch) id tool s.pending_writes h.pending) h

launch_dispatch-IsBooked :
    (d : Dispatch) (now : ℕ) (s : GuardState) → IsBooked s → IsBooked (launch_dispatch d now s)
unfolding launch_dispatch
launch_dispatch-IsBooked d now s h = record {
  log = last_entries-length_le _;
  epoch = h.epoch;
  pending = h.pending;
}

past_grows :
    (epoch : ℕ) (ps : List PendingWrite) → All (OfPast epoch) ps → All (OfPast (suc epoch)) ps
past_grows epoch [] a = tt
past_grows epoch (p ∷ ps) (a, more) = (omega arith, past_grows epoch ps more)

confirm_dispatch-IsBooked :
    (d : Dispatch) (now : ℕ) (s : GuardState) → IsBooked s → IsBooked (confirm_dispatch d now s)
unfolding confirm_dispatch reset_write_window
confirm_dispatch-IsBooked d now s h = record {
  log =
      log_of-length_le d now s.dispatch_log (confirm_launched d s.dispatch_log) h.log
        (confirm_launched-IsSized d s.dispatch_log);
  epoch =
      let e = h.epoch in
      omega
        (arith, total-count_dispatch (lane_of d (confirm_launched d s.dispatch_log)) s.dispatches);
  pending = past_grows s.dispatch_epoch s.pending_writes h.pending;
}

claim_advisory-IsBooked :
    (kind signature : Text) (s : GuardState)
    → IsBooked s
    → IsBooked (claim_advisory kind signature s).1
unfolding claim_advisory
claim_advisory-IsBooked kind signature s h = record {
  log = h.log;
  epoch = h.epoch;
  pending = h.pending;
}

verify_window-IsBooked :
    (judgment : Bool) (s : GuardState) → IsBooked s → OnFile IsBooked (verify_window judgment s)
unfolding verify_window reset_write_window
verify_window-IsBooked judgment s h =
    elim (Bool-cases (judgment && ltb 0 s.writes_since_dispatch)) [
      | inl y ↦ rw y (record { log = h.log; epoch = h.epoch; pending = h.pending })
      | inr n ↦ rw n tt
    ]

IsBooked-Kept : (cfg : Settings) → Kept cfg IsBooked
IsBooked-Kept cfg = record {
  from_none = default_state-IsBooked;
  from_some = normalize_state-IsBooked;
  by_decide = decide_write-IsBooked cfg;
  by_settle = settle_write-IsBooked cfg.budget;
  by_launch = launch_dispatch-IsBooked;
  by_confirm = confirm_dispatch-IsBooked;
  by_claim = claim_advisory-IsBooked;
  by_verify = verify_window-IsBooked (not cfg.strict);
}

-- Whatever calls of the hook a session makes, in either posture, the books of its state file are right
-- behind them: the log of dispatches has at most 200 entries, the counts of the lanes add up to the
-- number of windows that dispatches ended, and no pending write is of a window to come.
pub run_hooks-IsBooked :
    (host : Host) (cfg : Settings) (pattern : Option (Text → Bool)) (calls : List (HookCall × ℕ))
    → OnFile IsBooked (run_hooks host cfg pattern calls none)
run_hooks-IsBooked host cfg pattern calls =
    run_hooks-OnFile host cfg pattern IsBooked (IsBooked-Kept cfg) calls none tt
