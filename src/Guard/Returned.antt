-- ===== src/Guard/Returned.antt =====
-- plugins/fusion/scripts/lib/guard/write-events.mjs, `handleWrite`: a write that is let through and what
-- comes of it.
use mathlib.Core.Path.{subst}
use claude_code_fusion.Common.{
  ℕ, suc, ◌+◌, ◌<◌, ◌≡◌, refl, ap, ◌∙◌, Bool, true, false, ◌||◌, Option, none, some, List, [], ◌∷◌,
  ◌++◌, arith, if◌then◌else◌, ◌==◌, inl, inr, Bool-cases, Option-cases, any,
}
use claude_code_fusion.Common.Text.{Text, text_eq_refl}
use claude_code_fusion.Guard.Settings.{Settings}
use claude_code_fusion.Guard.State.{PendingWrite, GuardState, reset_write_window}
use claude_code_fusion.Guard.Write.{
  Write, Relief, allowed, Decision, duplicate, denied, is_entry, is_pending, relief_of, is_due,
  count_write, advise_write, is_tail, pending_of, decide_write,
}
use claude_code_fusion.Guard.Settle.{
  failed, take_pending, keep_entry, refund_write, shrink_window, settle_taken, settle_write,
}
use claude_code_fusion.Guard.Limits.{OnFile}
use claude_code_fusion.Guard.Dispatch.{Dispatch, confirm_dispatch}

-- The decision lets the write through, and the state is written.
abbrev pub lets_through : Option GuardState × Decision → Bool
lets_through (none, d) = false
lets_through (some s, duplicate) = false
lets_through (some s, denied w d) = false
lets_through (some s, allowed a) = true

-- Behind a confirmed dispatch the window is a new one: with a positive budget any write that is not
-- pending already is let through, in either posture.
pub decide_write-confirm_dispatch :
    (cfg : Settings) (w : Write) (d : Dispatch) (now : ℕ) (s : GuardState)
    → 0 < cfg.budget
    → is_pending w.id w.tool s.pending_writes ≡ false
    → lets_through (decide_write cfg w (confirm_dispatch d now s)) ≡ true
unfolding decide_write confirm_dispatch reset_write_window relief_of
decide_write-confirm_dispatch cfg w d now s positive fresh = ground arith

-- The entry of a write that is let through.
abbrev entry_for : Write → Text → ℕ → Bool → PendingWrite
entry_for w id epoch tail = record {
  id = id;
  tool = w.tool;
  epoch = epoch;
  bytes = w.bytes;
  signature = w.signature;
  tail = tail;
}

is_entry-entry_for :
    (w : Write) (id : Text) (epoch : ℕ) (tail : Bool)
    → is_entry id w.tool (entry_for w id epoch tail) ≡ true
is_entry-entry_for w id epoch tail = rw (text_eq_refl id, text_eq_refl w.tool) refl

take_pending-append :
    (id tool : Text) (ps : List PendingWrite) (p : PendingWrite)
    → any (is_entry id tool) ps ≡ false
    → is_entry id tool p ≡ true
    → take_pending id tool (ps ++ p ∷ []) ≡ some (p, ps)
unfolding take_pending any
take_pending-append id tool [] p none_yet e = rw e refl
take_pending-append id tool (q ∷ ps) p none_yet e = elim (Bool-cases (is_entry id tool q)) [
  | inl y ↦ absurd (ground arith)
  | inr n ↦ rw n (
      ap (keep_entry q) (
        take_pending-append id tool ps p
          (subst (λ b. (b || any (is_entry id tool) ps) ≡ false) n none_yet) e))
]

-- What letting a write through does to the counts and the pending writes.
record IsCounted (w : Write) (id : Text) (tail : Bool) (s t : GuardState) : Type 0 where
  count : t.write_count ≡ suc s.write_count
  since : t.writes_since_dispatch ≡ suc s.writes_since_dispatch
  bytes : t.inline_write_bytes ≡ s.inline_write_bytes + w.bytes
  slots :
      t.tail_writes_since_dispatch
      ≡ (if tail then suc s.tail_writes_since_dispatch else s.tail_writes_since_dispatch)
  epoch : t.dispatch_epoch ≡ s.dispatch_epoch
  pending : t.pending_writes ≡ s.pending_writes ++ entry_for w id s.dispatch_epoch tail ∷ []

count_write-IsCounted :
    (w : Write) (id : Text) (relief : Option Relief) (s : GuardState)
    → w.id ≡ some id
    → IsCounted w id (is_tail relief) s (count_write w relief s)
unfolding count_write
count_write-IsCounted w id relief s e = record {
  count = refl;
  since = refl;
  bytes = refl;
  slots = refl;
  epoch = refl;
  pending = ap (λ i. s.pending_writes ++ pending_of w s.dispatch_epoch (is_tail relief) i) e;
}

advise_write-IsCounted :
    (cfg : Settings) (w : Write) (id : Text) (tail : Bool) (s t : GuardState)
    → IsCounted w id tail s t
    → IsCounted w id tail s (advise_write cfg t)
unfolding advise_write
advise_write-IsCounted cfg w id tail s t h =
    elim (Bool-cases (is_due cfg t.writes_since_dispatch t.advised_multiples)) [
      | inl y ↦ rw y (record {
        count = h.count;
        since = h.since;
        bytes = h.bytes;
        slots = h.slots;
        epoch = h.epoch;
        pending = h.pending;
      })
      | inr n ↦ rw n h
    ]

-- A write that is let through is counted, with its entry, under an id that was not pending.
abbrev IsEntered : Write → Text → GuardState → GuardState → Type 0
IsEntered w id s t =
    (any (is_entry id w.tool) s.pending_writes ≡ false) × (tail : Bool) × IsCounted w id tail s t

decide_write-IsEntered :
    (cfg : Settings) (w : Write) (id : Text) (s : GuardState)
    → w.id ≡ some id
    → OnFile (IsEntered w id s) (decide_write cfg w s).0
unfolding decide_write
decide_write-IsEntered cfg w id s e = elim (Bool-cases (is_pending w.id w.tool s.pending_writes)) [
  | inl y ↦ rw y tt
  | inr n ↦ rw n (elim (Option-cases (relief_of cfg w s)) [
    | inl d ↦ rw d tt
    | inr (relief, v) ↦ rw v (
      subst (λ i. is_pending i w.tool s.pending_writes ≡ false) e n,
      is_tail relief,
      advise_write-IsCounted cfg w id (is_tail relief) s (count_write w relief s)
          (count_write-IsCounted w id relief s e),
    )
  ])
]

-- The counts and the pending writes are those of the state.
pub record IsBack (s t : GuardState) : Type 0 where
  pub count : t.write_count ≡ s.write_count
  pub since : t.writes_since_dispatch ≡ s.writes_since_dispatch
  pub bytes : t.inline_write_bytes ≡ s.inline_write_bytes
  pub slots : t.tail_writes_since_dispatch ≡ s.tail_writes_since_dispatch
  pub pending : t.pending_writes ≡ s.pending_writes

take_pending-entered :
    (w : Write) (id : Text) (tail : Bool) (s t : GuardState)
    → any (is_entry id w.tool) s.pending_writes ≡ false
    → IsCounted w id tail s t
    → take_pending id w.tool t.pending_writes
      ≡ some (entry_for w id s.dispatch_epoch tail, s.pending_writes)
take_pending-entered w id tail s t fresh h =
    ap (take_pending id w.tool) h.pending
    ∙ take_pending-append id w.tool s.pending_writes (entry_for w id s.dispatch_epoch tail) fresh
        (is_entry-entry_for w id s.dispatch_epoch tail)

refund_write-IsBack :
    (budget : ℕ) (w : Write) (id : Text) (tail : Bool) (s t : GuardState)
    → IsCounted w id tail s t
    → IsBack s (
        refund_write budget
          (entry_for w id s.dispatch_epoch tail)
          (record t { pending_writes = s.pending_writes }))
unfolding refund_write shrink_window
refund_write-IsBack budget w id tail s t h = rw (epoch_eq) (record {
  count = let k = h.count in omega arith;
  since = let k = h.since in omega arith;
  bytes = let k = h.bytes in omega arith;
  slots = let k = h.slots in ground arith;
  pending = refl;
})
  where
    epoch_eq : (s.dispatch_epoch == t.dispatch_epoch) ≡ true
    epoch_eq = let k = h.epoch in ground arith

-- A write that is let through and then fails is taken back: the counts of the session and of the window,
-- the bytes, the slots of the tail and the pending writes are what they were.
pub settle_write-IsBack :
    (cfg : Settings) (w : Write) (id : Text) (s t : GuardState)
    → w.id ≡ some id
    → (decide_write cfg w s).0 ≡ some t
    → (u : GuardState) × (settle_write cfg.budget failed id w.tool t ≡ some u) × IsBack s u
unfolding settle_write
settle_write-IsBack cfg w id s t e h =
    let (fresh, tail, c) =
      subst (OnFile (IsEntered w id s)) h (decide_write-IsEntered cfg w id s e) in
    (
      _,
      ap (settle_taken cfg.budget failed t) (take_pending-entered w id tail s t fresh c),
      refund_write-IsBack cfg.budget w id tail s t c,
    )

any-last :
    (p : PendingWrite → Bool) (ps : List PendingWrite) (q : PendingWrite)
    → p q ≡ true
    → any p (ps ++ q ∷ []) ≡ true
unfolding any
any-last p [] q e = rw e refl
any-last p (x ∷ ps) q e = ground (arith, any-last p ps q e)

is_pending-entered :
    (w : Write) (id : Text) (tail : Bool) (s t : GuardState)
    → w.id ≡ some id
    → IsCounted w id tail s t
    → is_pending w.id w.tool t.pending_writes ≡ true
is_pending-entered w id tail s t e c =
    ap (λ i. is_pending i w.tool t.pending_writes) e
    ∙ ap (any (is_entry id w.tool)) c.pending
    ∙ any-last (is_entry id w.tool) s.pending_writes (entry_for w id s.dispatch_epoch tail)
        (is_entry-entry_for w id s.dispatch_epoch tail)

-- A write that is let through and asked for once more is a duplicate: no state is written.
pub decide_write-twice :
    (cfg : Settings) (w : Write) (id : Text) (s t : GuardState)
    → w.id ≡ some id
    → (decide_write cfg w s).0 ≡ some t
    → decide_write cfg w t ≡ (none, duplicate)
unfolding decide_write
decide_write-twice cfg w id s t e h =
    let (fresh, tail, c) =
      subst (OnFile (IsEntered w id s)) h (decide_write-IsEntered cfg w id s e) in
    rw (is_pending-entered w id tail s t e c) refl
