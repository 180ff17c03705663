-- ===== src/Guard/Write.antt =====
-- plugins/fusion/scripts/lib/guard/write-events.mjs, `handleWrite` before a write: the budget of inline
-- writes.
use claude_code_fusion.Common.{
  ℕ, suc, ◌+◌, ◌-◌, ◌*◌, ◌/◌, Bool, true, false, not, ◌&&◌, ◌||◌, Option, none, some, List, [], ◌∷◌,
  ◌++◌, leb, ltb, ◌==◌, if◌then◌else◌, any,
}
use claude_code_fusion.Common.Text.{Text, codes, text_eq, has}
use claude_code_fusion.Streak.Turns.{is_doubled}
use claude_code_fusion.Guard.Settings.{Settings}
use claude_code_fusion.Guard.State.{PendingWrite, GuardState, total_dispatches}

-- What is asked for: `id` is the safe id of the tool's use, `replacement` is `null` unless an Edit has a
-- new string.
pub record Write : Type 0 where
  pub tool : Text
  pub id : Option Text
  pub bytes : ℕ
  pub replacement : Option ℕ
  pub signature : Text

pub data Relief : Type 0 where
  tail_allowed zero_dispatch_softened : Relief

pub record Allowed : Type 0 where
  pub write_count : ℕ
  pub dispatch_count : ℕ
  pub candidate : Option ℕ
  pub relief : Option Relief
  pub dispatch_epoch : ℕ
  pub remaining_tail_slots : ℕ
  pub remaining_zero_dispatch_writes : ℕ
  pub remaining_zero_dispatch_bytes : ℕ

pub data Decision : Type 0 where
  duplicate : Decision
  denied : (write_count dispatch_count : ℕ) → Decision
  allowed : Allowed → Decision

abbrev pub is_entry : Text → Text → PendingWrite → Bool
is_entry id tool p = text_eq p.id id && text_eq p.tool tool

abbrev pub is_pending : Option Text → Text → List PendingWrite → Bool
is_pending none tool pending = false
is_pending (some id) tool pending = any (is_entry id tool) pending

abbrev fits_tail : Option ℕ → ℕ → Bool
fits_tail none limit = false
fits_tail (some bytes) limit = leb bytes limit

unfoldable pub is_tail_allowed : Settings → Write → GuardState → Bool
is_tail_allowed cfg w s =
    text_eq w.tool (codes "Edit")
    && fits_tail w.replacement cfg.tail_max_bytes
    && ltb 0 cfg.tail_allowance
    && ltb s.tail_writes_since_dispatch cfg.tail_allowance
    && has s.written_path_signatures w.signature

unfoldable pub is_zero_dispatch_allowed : Settings → Write → GuardState → Bool
is_zero_dispatch_allowed cfg w s =
    total_dispatches s.dispatches == 0
    && ltb s.write_count cfg.zero_dispatch_writes
    && ltb (s.inline_write_bytes + w.bytes) cfg.zero_dispatch_max_bytes

-- The verdict on a write: `none` denies it, and an allowed one may stand on a relief.
unfoldable pub relief_of : Settings → Write → GuardState → Option (Option Relief)
relief_of cfg w s =
    if cfg.strict && leb cfg.budget s.writes_since_dispatch
    then if is_tail_allowed cfg w s
      then some (some tail_allowed)
      else if is_zero_dispatch_allowed cfg w s
      then some (some zero_dispatch_softened)
      else none
    else some none

abbrev pub is_tail : Option Relief → Bool
is_tail none = false
is_tail (some tail_allowed) = true
is_tail (some zero_dispatch_softened) = false

abbrev pub pending_of : Write → ℕ → Bool → Option Text → List PendingWrite
pending_of w epoch tail none = []
pending_of w epoch tail (some id) =
    record {
      id = id;
      tool = w.tool;
      epoch = epoch;
      bytes = w.bytes;
      signature = w.signature;
      tail = tail;
    }
    ∷ []

-- `Number.isInteger(Math.log2(multiple))`.
abbrev is_power : ℕ → Bool
is_power multiple = is_doubled multiple 1 multiple

-- An advisory is due at `writes` writes of the window.
unfoldable pub is_due : Settings → ℕ → List ℕ → Bool
is_due cfg writes advised =
    let multiple = writes / cfg.budget in
    leb 1 multiple
    && (cfg.strict || (writes == multiple * cfg.budget && is_power multiple))
    && not (any (◌==◌ multiple) advised)

-- The writes to the state in front of the advice.
unfoldable pub count_write : Write → Option Relief → GuardState → GuardState
count_write w relief s = record s {
  write_count = suc s.write_count;
  writes_since_dispatch = suc s.writes_since_dispatch;
  inline_write_bytes = s.inline_write_bytes + w.bytes;
  written_path_signatures =
      if has s.written_path_signatures w.signature
      then s.written_path_signatures
      else s.written_path_signatures ++ w.signature ∷ [];
  tail_writes_since_dispatch =
      if is_tail relief then suc s.tail_writes_since_dispatch else s.tail_writes_since_dispatch;
  pending_writes = s.pending_writes ++ pending_of w s.dispatch_epoch (is_tail relief) w.id;
}

unfoldable pub advise_write : Settings → GuardState → GuardState
advise_write cfg s =
    if is_due cfg s.writes_since_dispatch s.advised_multiples
    then record s {
      advised_multiples = s.advised_multiples ++ (s.writes_since_dispatch / cfg.budget) ∷ [];
    }
    else s

abbrev candidate_of : Settings → Option Relief → GuardState → Option ℕ
candidate_of cfg (some relief) s = none
candidate_of cfg none s =
    if is_due cfg s.writes_since_dispatch s.advised_multiples
    then some (s.writes_since_dispatch / cfg.budget)
    else none

unfoldable pub allowed_of : Settings → Option Relief → GuardState → Allowed
allowed_of cfg relief s = record {
  write_count = s.writes_since_dispatch;
  dispatch_count = total_dispatches s.dispatches;
  candidate = candidate_of cfg relief s;
  relief = relief;
  dispatch_epoch = s.dispatch_epoch;
  remaining_tail_slots = cfg.tail_allowance - s.tail_writes_since_dispatch;
  remaining_zero_dispatch_writes = cfg.zero_dispatch_writes - s.write_count;
  remaining_zero_dispatch_bytes = cfg.zero_dispatch_max_bytes - s.inline_write_bytes;
}

-- The state to write, if one is written, and the decision.
abbrev pub Decided : Type 0
Decided = Option GuardState × Decision

abbrev pub decide_by : Settings → Write → GuardState → Option (Option Relief) → Decided
decide_by cfg w s none = (none, denied s.writes_since_dispatch (total_dispatches s.dispatches))
decide_by cfg w s (some relief) = (
  some (advise_write cfg (count_write w relief s)),
  allowed (allowed_of cfg relief (count_write w relief s)),
)

-- The callback under the lock.
unfoldable pub decide_write : Settings → Write → GuardState → Decided
decide_write cfg w s =
    if is_pending w.id w.tool s.pending_writes
    then (none, duplicate)
    else decide_by cfg w s (relief_of cfg w s)
