-- ===== src/Worker/Limits.antt =====
-- plugins/fusion/scripts/lib/lifecycle/budget.mjs: what the budgets of workers guarantee.
use mathlib.Core.Path.{subst}
use mathlib.Core.Option.{some-injective}
use claude_code_fusion.Common.{
  sym, ap, Option-cases, ℕ, ◌+◌, ◌≤◌, ◌<◌, ◌≡◌, ◌≢◌, refl, true, false, ◌&&◌, Option, none, some,
  [], arith, or_else, inl, inr, ◌↔◌, Bool-cases,
}
use claude_code_fusion.Common.Text.{Text, codes, has, text_eq}
use claude_code_fusion.Worker.Agents.{worker_terminal_statuses, canonical_worker_agent_type}
use claude_code_fusion.Worker.Records.{Limits, WorkerRecord}
use claude_code_fusion.Worker.Budget.{
  BudgetEnv, BudgetFailure, checked_positive, parse_int, positive_integer, default_limits, scaled,
  worker_limits, worker_round_usage, round_started, last_alive, is_watched, is_over,
  worker_budget_failure, mark_budget_failure, limit_failure, failure_under,
}

-- Every limit leaves room for a first turn.
pub record IsPositive (l : Limits) : Type 0 where
  pub wall_clock_ms : 0 < l.wall_clock_ms
  pub stall_ms : 0 < l.stall_ms
  pub max_turns : 0 < l.max_turns
  pub max_output_tokens : 0 < l.max_output_tokens
  pub max_uncached_tokens : 0 < l.max_uncached_tokens

default_limits-IsPositive : (t : Option Text) → IsPositive (default_limits t)
unfolding default_limits
default_limits-IsPositive t = ground arith

scaled_pos : (s : Option Text) (n : ℕ) → 0 < n → 0 < scaled s n
unfolding scaled
scaled_pos s n h = ground arith

positive_integer_pos : (v : Option Text) (n : ℕ) → 0 < n → 0 < positive_integer v n
unfolding positive_integer
positive_integer_pos v n h = go (parse_int (or_else v []))
  where
    go : (m : Option ℕ) → 0 < checked_positive m n
    go none = h
    go (some k) = ground arith

-- Whatever the environment holds and however the task is sized, no limit is 0.
pub worker_limits-IsPositive :
    (t : Option Text) (env : BudgetEnv) (sizing : Option Text)
    → IsPositive (worker_limits t env sizing)
unfolding worker_limits
worker_limits-IsPositive t env sizing =
    let p = default_limits-IsPositive (canonical_worker_agent_type t) in
    record {
      wall_clock_ms = positive_integer_pos _ _ (scaled_pos sizing _ p.wall_clock_ms);
      stall_ms = positive_integer_pos _ _ (scaled_pos sizing _ p.stall_ms);
      max_turns = scaled_pos sizing _ p.max_turns;
      max_output_tokens = scaled_pos sizing _ p.max_output_tokens;
      max_uncached_tokens = scaled_pos sizing _ p.max_uncached_tokens;
    }

-- A time with less than the limit behind it, or no time.
abbrev pub Within : Option ℕ → ℕ → ℕ → Type 0
Within none limit now = Unit
Within (some t) limit now = now < t + limit

-- All budgets of a round hold.
pub record IsWithin (parse_date : Text → Option ℕ) (r : WorkerRecord) (now : ℕ) (l : Limits)
    : Type 0 where
  pub wall : Within (round_started parse_date r) l.wall_clock_ms now
  pub stall : is_watched parse_date r ≡ true → Within (last_alive parse_date r) l.stall_ms now
  pub turns : (worker_round_usage r).turns < l.max_turns
  pub output_tokens : (worker_round_usage r).output_tokens < l.max_output_tokens
  pub uncached_tokens : (worker_round_usage r).uncached_tokens < l.max_uncached_tokens

Within-is_over : (m : Option ℕ) (limit now : ℕ) → is_over m limit now ≡ false → Within m limit now
Within-is_over none limit now h = tt
Within-is_over (some t) limit now h = ground arith

is_over-Within : (m : Option ℕ) (limit now : ℕ) → Within m limit now → is_over m limit now ≡ false
is_over-Within none limit now h = refl
is_over-Within (some t) limit now h = ground arith

-- The test reports nothing exactly when every budget of the round holds.
pub worker_budget_failure_iff :
    (parse_date : Text → Option ℕ) (r : WorkerRecord) (now : ℕ) (l : Limits)
    → r.limits ≡ some l
    → (worker_budget_failure parse_date r now ≡ none) ↔ IsWithin parse_date r now l
unfolding worker_budget_failure
worker_budget_failure_iff parse_date r now l e =
    subst (λ m. (failure_under parse_date r now m ≡ none) ↔ IsWithin parse_date r now l) (sym e)
      (there, back)
  where
    there : limit_failure parse_date r now l ≡ none → IsWithin parse_date r now l
    there h = elim (Bool-cases (is_over (round_started parse_date r) l.wall_clock_ms now)) [
      | inl o ↦ absurd (cc (rw o at h))
      | inr o ↦
          elim (Bool-cases
            (is_watched parse_date r && is_over (last_alive parse_date r) l.stall_ms now)) [
              | inl w ↦ absurd (cc (rw (o, w) at h))
              | inr w ↦
                  let u = rw (o, w) at h in
                  record {
                    wall = Within-is_over (round_started parse_date r) l.wall_clock_ms now o;
                    stall =
                        λ y. Within-is_over (last_alive parse_date r) l.stall_ms now (ground arith);
                    turns = ground arith;
                    output_tokens = ground arith;
                    uncached_tokens = ground arith;
                  }
            ]
    ]

    back : IsWithin parse_date r now l → limit_failure parse_date r now l ≡ none
    back w =
        rw (is_over-Within (round_started parse_date r) l.wall_clock_ms now w.wall)
          (ground (arith, is_over-Within (last_alive parse_date r) l.stall_ms now))

Within-earlier :
    (m : Option ℕ) (limit now later : ℕ) → now ≤ later → Within m limit later → Within m limit now
Within-earlier none limit now later h w = tt
Within-earlier (some t) limit now later h w = omega arith

IsWithin-earlier :
    (parse_date : Text → Option ℕ) (r : WorkerRecord) (now later : ℕ) (l : Limits)
    → now ≤ later
    → IsWithin parse_date r later l
    → IsWithin parse_date r now l
IsWithin-earlier parse_date r now later l h w = record {
  wall = Within-earlier (round_started parse_date r) l.wall_clock_ms now later h w.wall;
  stall = λ y. Within-earlier (last_alive parse_date r) l.stall_ms now later h (w.stall y);
  turns = w.turns;
  output_tokens = w.output_tokens;
  uncached_tokens = w.uncached_tokens;
}

-- A record that is over a budget stays so as time passes, until it is written again.
pub worker_budget_failure_later :
    (parse_date : Text → Option ℕ) (r : WorkerRecord) (now later : ℕ)
    → now ≤ later
    → worker_budget_failure parse_date r now ≢ none
    → worker_budget_failure parse_date r later ≢ none
worker_budget_failure_later parse_date r now later h over e = elim (Option-cases r.limits) [
  | inl n ↦ over (unfold worker_budget_failure in ap (failure_under parse_date r now) n)
  | inr (l, s) ↦ over (
      (worker_budget_failure_iff parse_date r now l s).1 (
        IsWithin-earlier parse_date r now later l h
          ((worker_budget_failure_iff parse_date r later l s).0 e)))
]

not_terminal : has worker_terminal_statuses (codes "cancel_requested") ≡ false
unfolding has text_eq
not_terminal = refl

-- What a mark does to a record.
pub record IsMarked (f : BudgetFailure) (r r' : WorkerRecord) : Type 0 where
  pub was_open : has worker_terminal_statuses r.transport_status ≡ false
  pub is_open : has worker_terminal_statuses r'.transport_status ≡ false
  pub kind : r'.failure_kind ≡ some f.failure_kind
  pub limits : r'.limits ≡ r.limits
  pub usage : worker_round_usage r' ≡ worker_round_usage r

-- A budget failure is written only over a record that is not final, and leaves it not final, with the
-- failure's kind and with the limits and the usage that it had.
pub mark_budget_failure-IsMarked :
    (f : BudgetFailure) (at : Text) (r r' : WorkerRecord)
    → mark_budget_failure f at (some r) ≡ some r'
    → IsMarked f r r'
unfolding mark_budget_failure
mark_budget_failure-IsMarked f at r r' h =
    elim (Bool-cases (has worker_terminal_statuses r.transport_status)) [
      | inl y ↦ absurd (cc (rw y at h))
      | inr n ↦ subst (IsMarked f r) (some-injective _ r' (rw n at h)) (record {
        was_open = n;
        is_open = not_terminal;
        kind = refl;
        limits = refl;
        usage = unfold worker_round_usage in refl;
      })
    ]
