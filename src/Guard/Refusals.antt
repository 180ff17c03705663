-- ===== src/Guard/Refusals.antt =====
-- plugins/fusion/scripts/lib/guard/handler.mjs, `runHook`: the calls of the hook that are refused.
use claude_code_fusion.Common.{
  ℕ, ◌≡◌, refl, Bool, true, false, not, ◌&&◌, Option, none, some, arith, ◌==◌, any, if-both,
}
use claude_code_fusion.Common.Text.{Text}
use claude_code_fusion.Guard.Settings.{Settings}
use claude_code_fusion.Guard.State.{GuardState, normalize_state}
use claude_code_fusion.Guard.Names.{extract_tool_use_id}
use claude_code_fusion.Guard.Bytes.{Host}
use claude_code_fusion.Guard.Write.{
  Write, Relief, Decided, Decision, duplicate, denied, allowed, Allowed, relief_of, decide_write,
}
use claude_code_fusion.Guard.Settle.{Outcome}
use claude_code_fusion.Guard.Calls.{
  HookCall, Reply, silent, exempt, deny_write, relieve, warn, counted, deny_no_op, deny_unavailable,
  redirect, Hooked, advise_candidate, advise_allowed, reply_to, write_of, settle_by,
}
use claude_code_fusion.Guard.Hooks.{verified_by, run_hook}
use claude_code_fusion.Command.Evidence.{Evidence}
use claude_code_fusion.Guard.Leaves.{run_hook-leaves}

-- The replies that stop the tool.
abbrev pub stops : Reply → Bool
stops silent = false
stops exempt = false
stops (deny_write w d) = true
stops (relieve r suppressed) = false
stops (warn suppressed) = false
stops (counted recovered generic) = false
stops deny_no_op = true
stops deny_unavailable = true
stops (redirect r) = true

abbrev pub denies_write : Reply → Bool
denies_write silent = false
denies_write exempt = false
denies_write (deny_write w d) = true
denies_write (relieve r suppressed) = false
denies_write (warn suppressed) = false
denies_write (counted recovered generic) = false
denies_write deny_no_op = false
denies_write deny_unavailable = true
denies_write (redirect r) = false

denies_write-stops : (r : Reply) → stops r ≡ false → denies_write r ≡ false
denies_write-stops silent h = refl
denies_write-stops exempt h = refl
denies_write-stops (deny_write w d) h = absurd (ground arith)
denies_write-stops (relieve r suppressed) h = refl
denies_write-stops (warn suppressed) h = refl
denies_write-stops (counted recovered generic) h = refl
denies_write-stops deny_no_op h = refl
denies_write-stops deny_unavailable h = absurd (ground arith)
denies_write-stops (redirect r) h = refl

module _ (host : Host) (cfg : Settings) (now : ℕ) where
  advise_candidate-silent :
      (a : Allowed) (s : GuardState) (m : Option ℕ)
      → stops (advise_candidate host cfg a now s m).0 ≡ false
  advise_candidate-silent a s none = refl
  advise_candidate-silent a s (some multiple) =
      let t = normalize_state (some s) now in
      if-both (λ (r : Hooked). stops r.0 ≡ false)
        ((t.dispatch_epoch == a.dispatch_epoch) && any (◌==◌ multiple) t.advised_multiples) refl
        refl

  advise_allowed-silent :
      (a : Allowed) (s : GuardState) (m : Option Relief)
      → stops (advise_allowed host cfg a now s m).0 ≡ false
  advise_allowed-silent a s none = advise_candidate-silent a s a.candidate
  advise_allowed-silent a s (some relief) = refl

-- The decision is no denial.
abbrev is_denied : Decision → Bool
is_denied duplicate = false
is_denied (denied w d) = true
is_denied (allowed a) = false

decide_write-advisory :
    (cfg : Settings) (w : Write) (s : GuardState)
    → cfg.strict ≡ false
    → is_denied (decide_write cfg w s).1 ≡ false
unfolding decide_write relief_of
decide_write-advisory cfg w s lenient = ground arith

module _ (host : Host) (cfg : Settings) (now : ℕ) where
  reply_to-lenient :
      (file : Option GuardState) (d : Decided)
      → is_denied d.1 ≡ false
      → denies_write (reply_to host cfg file now d).0 ≡ false
  reply_to-lenient file (written, duplicate) h = refl
  reply_to-lenient file (written, denied w d) h = absurd (ground arith)
  reply_to-lenient file (none, allowed a) h = refl
  reply_to-lenient file (some s, allowed a) h =
      denies_write-stops _ (advise_allowed-silent host cfg now a s a.relief)

  settle_by-lenient :
      (outcome : Outcome) (c : HookCall) (file : Option GuardState) (id : Option Text)
      → denies_write (settle_by host cfg outcome c now file id).0 ≡ false
  settle_by-lenient outcome c file none = refl
  settle_by-lenient outcome c file (some id) = refl

  verified_by-lenient :
      (pattern : Option (Text → Bool)) (judgment : Bool) (file : Option GuardState)
      (e : Option Evidence)
      → denies_write (verified_by pattern judgment now file e).0 ≡ false
  verified_by-lenient pattern judgment file none = refl
  verified_by-lenient pattern judgment file (some e) = refl

-- Outside of the strict posture no call of the hook is answered by the denial of a write.
run_hook-advisory :
    (host : Host) (cfg : Settings) (pattern : Option (Text → Bool)) (c : HookCall) (now : ℕ)
    (file : Option GuardState)
    → cfg.strict ≡ false
    → denies_write (run_hook host cfg pattern c now file).0 ≡ false
run_hook-advisory host cfg pattern c now file lenient =
    run_hook-leaves host cfg pattern c now file (λ r. denies_write r.0 ≡ false)
      (record {
        at_rest = refl;
        at_exempt = refl;
        at_no_op = refl;
        at_redirect = λ r. refl;
        at_settle = λ outcome.
            settle_by-lenient host cfg now outcome c file (extract_tool_use_id c.tool_use_id);
        at_decide =
            reply_to-lenient host cfg now file
              (decide_write cfg (write_of host cfg c) (normalize_state file now))
              (decide_write-advisory cfg (write_of host cfg c) (normalize_state file now) lenient);
        at_launch = refl;
        at_confirm = refl;
        at_verify = verified_by-lenient host cfg now pattern (not cfg.strict) file;
      })
