-- ===== src/Guard/Kept.antt =====
-- plugins/fusion/scripts/lib/guard/handler.mjs, `runHook`: what every step on the state keeps, the calls
-- of the hook in a session keep.
use claude_code_fusion.Common.{
  ℕ, ◌==◌, inl, inr, Bool-cases, any, Bool, not, ◌&&◌, Option, none, some, List, [], ◌∷◌,
}
use claude_code_fusion.Guard.Write.{
  decide_write, Write, Relief, Decided, Allowed, allowed, duplicate, denied,
}
use claude_code_fusion.Guard.Settle.{Outcome, settle_write}
use claude_code_fusion.Guard.Dispatch.{Dispatch, launch_dispatch, confirm_dispatch}
use claude_code_fusion.Common.Text.{Text}
use claude_code_fusion.Command.Evidence.{Evidence}
use claude_code_fusion.Guard.Settings.{Settings}
use claude_code_fusion.Guard.State.{GuardState, normalize_state}
use claude_code_fusion.Guard.Bytes.{Host}
use claude_code_fusion.Guard.Limits.{OnFile}
use claude_code_fusion.Guard.Verify.{verify_window}
use claude_code_fusion.Guard.Calls.{
  claim_advisory, advise_candidate, advise_allowed, HookCall, reply_to, write_of, settle_by,
  file_behind,
}
use claude_code_fusion.Guard.Hooks.{dispatch_of, verified_by, run_hook}
use claude_code_fusion.Guard.Leaves.{run_hook-leaves}

-- What a handler does to the state, under a configuration, keeps a property of the state.
pub record Kept (cfg : Settings) (P : GuardState → Type 0) : Type 0 where
  pub from_none : (now : ℕ) → P (normalize_state none now)
  pub from_some : (s : GuardState) (now : ℕ) → P s → P (normalize_state (some s) now)
  pub by_decide : (w : Write) (s : GuardState) → P s → OnFile P (decide_write cfg w s).0
  pub by_settle :
      (outcome : Outcome) (id tool : Text) (s : GuardState)
      → P s
      → OnFile P (settle_write cfg.budget outcome id tool s)
  pub by_launch : (d : Dispatch) (now : ℕ) (s : GuardState) → P s → P (launch_dispatch d now s)
  pub by_confirm : (d : Dispatch) (now : ℕ) (s : GuardState) → P s → P (confirm_dispatch d now s)
  pub by_claim :
      (kind signature : Text) (s : GuardState) → P s → P (claim_advisory kind signature s).1
  pub by_verify : (s : GuardState) → P s → OnFile P (verify_window (not cfg.strict) s)

-- The calls of a session, each with its time.
unfoldable pub run_hooks :
    Host
    → Settings
    → Option (Text → Bool)
    → List (HookCall × ℕ)
    → Option GuardState
    → Option GuardState
run_hooks host cfg pattern [] file = file
run_hooks host cfg pattern ((c, now) ∷ calls) file =
    run_hooks host cfg pattern calls (run_hook host cfg pattern c now file).1

file_behind-OnFile :
    (P : GuardState → Type 0) (file written : Option GuardState)
    → OnFile P file
    → OnFile P written
    → OnFile P (file_behind file written)
file_behind-OnFile P file none h k = h
file_behind-OnFile P file (some s) h k = k

module _ (host : Host) (cfg : Settings) (P : GuardState → Type 0) (kept : Kept cfg P)
    (now : ℕ) where
  normalized-OnFile : (file : Option GuardState) → OnFile P file → P (normalize_state file now)
  normalized-OnFile none h = kept.from_none now
  normalized-OnFile (some s) h = kept.from_some s now h

  advise_candidate-OnFile :
      (a : Allowed) (s : GuardState) (m : Option ℕ)
      → P s
      → OnFile P (advise_candidate host cfg a now s m).1
  advise_candidate-OnFile a s none h = h
  advise_candidate-OnFile a s (some multiple) h =
      let t = normalize_state (some s) now in
      elim (Bool-cases
        ((t.dispatch_epoch == a.dispatch_epoch) && any (◌==◌ multiple) t.advised_multiples)) [
          | inl y ↦ rw y (kept.by_claim _ _ t (kept.from_some s now h))
          | inr n ↦ rw n h
        ]

  advise_allowed-OnFile :
      (a : Allowed) (s : GuardState) (m : Option Relief)
      → P s
      → OnFile P (advise_allowed host cfg a now s m).1
  advise_allowed-OnFile a s none h = advise_candidate-OnFile a s a.candidate h
  advise_allowed-OnFile a s (some relief) h =
      kept.by_claim _ _ (normalize_state (some s) now) (kept.from_some s now h)

  reply_to-OnFile :
      (file : Option GuardState) (d : Decided)
      → OnFile P file
      → OnFile P d.0
      → OnFile P (reply_to host cfg file now d).1
  reply_to-OnFile file (written, duplicate) h k = h
  reply_to-OnFile file (written, denied w d) h k = h
  reply_to-OnFile file (none, allowed a) h k = h
  reply_to-OnFile file (some s, allowed a) h k = advise_allowed-OnFile a s a.relief k

  settle_by-OnFile :
      (outcome : Outcome) (c : HookCall) (file : Option GuardState) (id : Option Text)
      → OnFile P file
      → OnFile P (settle_by host cfg outcome c now file id).1
  settle_by-OnFile outcome c file none h = h
  settle_by-OnFile outcome c file (some id) h =
      file_behind-OnFile P file _ h (
        kept.by_settle outcome id c.tool_name (normalize_state file now) (normalized-OnFile file h))

  verified_by-OnFile :
      (pattern : Option (Text → Bool)) (file : Option GuardState) (e : Option Evidence)
      → OnFile P file
      → OnFile P (verified_by pattern (not cfg.strict) now file e).1
  verified_by-OnFile pattern file none h = h
  verified_by-OnFile pattern file (some e) h =
      file_behind-OnFile P file _ h (kept.by_verify _ (normalized-OnFile file h))

  run_hook-OnFile :
      (pattern : Option (Text → Bool)) (c : HookCall) (file : Option GuardState)
      → OnFile P file
      → OnFile P (run_hook host cfg pattern c now file).1
  run_hook-OnFile pattern c file h =
      let s = normalize_state file now in
      let k = normalized-OnFile file h in
      run_hook-leaves host cfg pattern c now file (λ r. OnFile P r.1)
        (record {
          at_rest = h;
          at_exempt = h;
          at_no_op = h;
          at_redirect = λ r. h;
          at_settle = λ outcome. settle_by-OnFile outcome c file _ h;
          at_decide =
              reply_to-OnFile file (decide_write cfg (write_of host cfg c) s) h
                (kept.by_decide (write_of host cfg c) s k);
          at_launch = kept.by_launch (dispatch_of c) now s k;
          at_confirm = kept.by_confirm (dispatch_of c) now s k;
          at_verify = λ e. verified_by-OnFile pattern file e h;
        })

-- A property that the steps keep holds of the state file behind any calls of the hook.
pub run_hooks-OnFile :
    (host : Host) (cfg : Settings) (pattern : Option (Text → Bool)) (P : GuardState → Type 0)
    → Kept cfg P
    → (calls : List (HookCall × ℕ)) (file : Option GuardState) → OnFile P file
    → OnFile P (run_hooks host cfg pattern calls file)
unfolding run_hooks
run_hooks-OnFile host cfg pattern P kept [] file h = h
run_hooks-OnFile host cfg pattern P kept ((c, now) ∷ calls) file h =
    run_hooks-OnFile host cfg pattern P kept calls _
      (run_hook-OnFile host cfg P kept now pattern c file h)
