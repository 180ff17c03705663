-- ===== src/Guard/Closed.antt =====
-- plugins/fusion/scripts/lib/guard/handler.mjs, `executeHook`: no write of the main session to its workspace
-- goes by the strict guard.
use mathlib.Core.Path.{subst}
use claude_code_fusion.Common.{
  ℕ, suc, ◌≡◌, refl, sym, ap, ◌∙◌, ◌⊎◌, Bool, true, false, not, ◌&&◌, Option, none, some, arith,
  inl, inr, every, if-both, ◌==◌, any,
}
use claude_code_fusion.Common.Text.{is_empty, Text, codes, text_eq, has, has-every}
use claude_code_fusion.Streak.Turns.{
  read_tools, write_tools, delegation_tools, bash_tool, other_event,
}
use claude_code_fusion.Guard.Settings.{Settings}
use claude_code_fusion.Guard.State.{GuardState, normalize_state}
use claude_code_fusion.Guard.Names.{is_session_id}
use claude_code_fusion.Guard.Bytes.{Host, extract_write_path, is_workspace_write_path}
use claude_code_fusion.Guard.Write.{
  Write, Relief, Allowed, is_pending, relief_of, count_write, advise_write, decide_by, decide_write,
  allowed_of,
}
use claude_code_fusion.Guard.Calls.{
  HookCall, Hooked, is_event, claim_advisory, advise_candidate, advise_allowed, reply_to, write_of,
  handle_write,
}
use claude_code_fusion.Guard.Hooks.{task_control_tools, run_hook, execute_hook}
use claude_code_fusion.Guard.Refusals.{stops}

-- The writes that the file counts.
abbrev count_of : Option GuardState → ℕ
count_of none = 0
count_of (some s) = s.write_count

-- The call is stopped, or the file counts one write more.
abbrev pub IsCovered : Option GuardState → Hooked → Type 0
IsCovered file r = (stops r.0 ≡ true) ⊎ (count_of r.1 ≡ suc (count_of file))

normalized_count :
    (file : Option GuardState) (now : ℕ) → (normalize_state file now).write_count ≡ count_of file
unfolding normalize_state
normalized_count none now = refl
normalized_count (some s) now = refl

-- A call of the main session, with a proper session id, before a write to its workspace.
pub record IsAsking (host : Host) (c : HookCall) : Type 0 where
  pub main : c.agent_id ≡ false
  pub session : is_session_id c.session_id ≡ true
  pub before : c.hook_event_name ≡ some (codes "PreToolUse")
  pub tool : has write_tools c.tool_name ≡ true
  pub inside : is_workspace_write_path host (extract_write_path c.tool_input) c.cwd ≡ true

IsCovered-from :
    (file : Option GuardState) (s : GuardState) (r : Hooked)
    → s.write_count ≡ count_of file
    → IsCovered (some s) r
    → IsCovered file r
IsCovered-from file s r e (inl y) = inl y
IsCovered-from file s r e (inr k) = inr (k ∙ ap suc e)

before_events :
    (name : Option Text)
    → name ≡ some (codes "PreToolUse")
    → (is_event (codes "PostToolUseFailure") name ≡ false)
      × (is_event (codes "PostToolUse") name ≡ false)
      × (other_event name ≡ false)
unfolding text_eq
before_events name e = rw e (refl, refl, refl)

module _ (host : Host) (cfg : Settings) (now : ℕ) where
  claimed_count :
      (kind signature : Text) (s : GuardState)
      → (claim_advisory kind signature (normalize_state (some s) now)).1.write_count ≡ s.write_count
  unfolding claim_advisory normalize_state
  claimed_count kind signature s = refl

  advise_candidate_count :
      (a : Allowed) (s : GuardState) (m : Option ℕ)
      → count_of (advise_candidate host cfg a now s m).1 ≡ s.write_count
  advise_candidate_count a s none = refl
  advise_candidate_count a s (some multiple) =
      let t = normalize_state (some s) now in
      if-both (λ (r : Hooked). count_of r.1 ≡ s.write_count)
        ((t.dispatch_epoch == a.dispatch_epoch) && any (◌==◌ multiple) t.advised_multiples)
        (claimed_count _ _ s) refl

  advise_allowed_count :
      (a : Allowed) (s : GuardState) (m : Option Relief)
      → count_of (advise_allowed host cfg a now s m).1 ≡ s.write_count
  advise_allowed_count a s none = advise_candidate_count a s a.candidate
  advise_allowed_count a s (some relief) = claimed_count _ _ s

  advise_write_count :
      (w : Write) (relief : Option Relief) (s : GuardState)
      → (advise_write cfg (count_write w relief s)).write_count ≡ suc s.write_count
  unfolding advise_write count_write
  advise_write_count w relief s =
      if-both (λ (t : GuardState). t.write_count ≡ suc s.write_count) _ refl refl

  -- The decision on a write that is not pending, and what is replied to it.
  decided_count :
      (file : Option GuardState) (w : Write) (s : GuardState) (verdict : Option (Option Relief))
      → IsCovered (some s) (reply_to host cfg file now (decide_by cfg w s verdict))
  unfolding allowed_of
  decided_count file w s none = inl refl
  decided_count file w s (some relief) = inr (
      advise_allowed_count _ (advise_write cfg (count_write w relief s)) relief
      ∙ advise_write_count w relief s)

  decide_write-IsCovered :
      (file : Option GuardState) (w : Write) (s : GuardState)
      → is_pending w.id w.tool s.pending_writes ≡ false
      → IsCovered (some s) (reply_to host cfg file now (decide_write cfg w s))
  unfolding decide_write
  decide_write-IsCovered file w s fresh = rw fresh (decided_count file w s (relief_of cfg w s))

  handle_write-IsCovered :
      (c : HookCall) (file : Option GuardState)
      → IsAsking host c
      → is_pending (write_of host cfg c).id c.tool_name (normalize_state file now).pending_writes
        ≡ false
      → IsCovered file (handle_write host cfg c now file)
  unfolding handle_write
  handle_write-IsCovered c file asking fresh =
      let (no_failure, no_success, no_other) = before_events c.hook_event_name asking.before in
      rw (asking.tool, no_failure, no_success, no_other, asking.inside)
        (IsCovered-from file (normalize_state file now)
          (reply_to host cfg file now
            (decide_write cfg (write_of host cfg c) (normalize_state file now)))
          (normalized_count file now)
          (decide_write-IsCovered file (write_of host cfg c) (normalize_state file now) fresh))

-- A tool that writes is none of the others.
abbrev is_only_write : Text → Bool
is_only_write t =
    not (is_empty t)
    && not (has delegation_tools t)
    && not (has task_control_tools t)
    && not (text_eq t bash_tool)
    && not (has read_tools t)

write_tools-is_only_write : (t : Text) → has write_tools t ≡ true → is_only_write t ≡ true
unfolding every has text_eq
write_tools-is_only_write t h = has-every is_only_write write_tools t h refl

none_of :
    (a b c d e : Bool)
    → (not a && not b && not c && not d && not e) ≡ true
    → (a ≡ false) × (b ≡ false) × (c ≡ false) × (d ≡ false) × (e ≡ false)
none_of true b c d e h = absurd (ground arith)
none_of false true c d e h = absurd (ground arith)
none_of false false true d e h = absurd (ground arith)
none_of false false false true e h = absurd (ground arith)
none_of false false false false true h = absurd (ground arith)
none_of false false false false false h = (refl, refl, refl, refl, refl)

run_hook_writes :
    (host : Host) (cfg : Settings) (pattern : Option (Text → Bool)) (c : HookCall) (now : ℕ)
    (file : Option GuardState)
    → IsAsking host c
    → run_hook host cfg pattern c now file ≡ handle_write host cfg c now file
unfolding run_hook
run_hook_writes host cfg pattern c now file asking =
    let (not_empty, no_dispatch, no_control, no_bash, no_read) =
      none_of _ _ _ _ _ (write_tools-is_only_write c.tool_name asking.tool) in
    rw (asking.main, asking.session, not_empty, no_dispatch, no_control, no_bash, no_read) refl

-- The run that throws leaves some file behind, and the run that does not is `runHook`.
abbrev pub executed :
    Host
    → Settings
    → Option (Text → Bool)
    → HookCall
    → ℕ
    → Option GuardState
    → Option (Option GuardState)
    → Hooked
executed host cfg pattern c now file none =
    execute_hook host cfg c file (some (run_hook host cfg pattern c now file))
executed host cfg pattern c now file (some written) = execute_hook host cfg c written none

-- In the strict posture every write of the main session to its workspace, with a proper session id and
-- unless it is pending already, is stopped or counted by the state file, also where the run of the hook
-- throws, whatever it leaves.
pub execute_hook-IsCovered :
    (host : Host) (cfg : Settings) (pattern : Option (Text → Bool)) (c : HookCall) (now : ℕ)
    (file : Option GuardState) (thrown : Option (Option GuardState))
    → cfg.strict ≡ true
    → IsAsking host c
    → is_pending (write_of host cfg c).id c.tool_name (normalize_state file now).pending_writes
      ≡ false
    → IsCovered file (executed host cfg pattern c now file thrown)
unfolding execute_hook
execute_hook-IsCovered host cfg pattern c now file none strict asking fresh =
    subst (IsCovered file) (sym (run_hook_writes host cfg pattern c now file asking))
      (handle_write-IsCovered host cfg now c file asking fresh)
execute_hook-IsCovered host cfg pattern c now file (some written) strict asking fresh =
    rw (strict, asking.main, asking.tool, asking.inside) (inl refl)
