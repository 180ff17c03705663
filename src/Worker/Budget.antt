-- ===== src/Worker/Budget.antt =====
-- plugins/fusion/scripts/lib/lifecycle/budget.mjs: the limits of a worker's round and the test of them.
use claude_code_fusion.Common.{
  ℕ, ◌+◌, ◌-◌, ◌*◌, ◌/◌, ◌^◌, Bool, false, not, ◌&&◌, ◌||◌, Option, none, some, List, [], ◌∷◌, leb,
  ltb, ◌==◌, if◌then◌else◌, or_else,
}
use claude_code_fusion.Common.Text.{Text, codes, text_eq, has, trim_start, is_empty}
use claude_code_fusion.Worker.Records.{Limits, Counters, WorkerRecord}
use claude_code_fusion.Worker.Agents.{canonical_worker_agent_type, worker_terminal_statuses}

-- `Number.parseInt(text, 10)`, for what is not negative: the digits at the front, behind white space
-- and a plus sign. `none` is NaN or a negative number.
abbrev is_digit : ℕ → Bool
is_digit c = leb b'0' c && leb c b'9'

unfoldable pub read_digits : ℕ → Text → ℕ
read_digits n [] = n
read_digits n (c ∷ cs) =
    let more = read_digits (n * 10 + (c - b'0')) cs in if is_digit c then more else n

abbrev read_number : Text → Option ℕ
read_number [] = none
read_number (c ∷ cs) = if is_digit c then some (read_digits 0 (c ∷ cs)) else none

abbrev read_sign : Text → Option ℕ
read_sign [] = none
read_sign (c ∷ cs) = if c == b'+' then read_number cs else read_number (c ∷ cs)

unfoldable pub parse_int : Text → Option ℕ
parse_int t = read_sign (trim_start t)

abbrev pub max_safe_integer : ℕ
max_safe_integer = 2 ^ 53 - 1

abbrev pub checked_positive : Option ℕ → ℕ → ℕ
checked_positive none fallback = fallback
checked_positive (some n) fallback = if leb n max_safe_integer && ltb 0 n then n else fallback

-- `value` is the variable of the environment, if it is set.
unfoldable pub positive_integer : Option Text → ℕ → ℕ
positive_integer value fallback = checked_positive (parse_int (or_else value [])) fallback

abbrev pub limits_of : ℕ → ℕ → ℕ → ℕ → ℕ → Limits
limits_of w s t o u = record {
  wall_clock_ms = w;
  stall_ms = s;
  max_turns = t;
  max_output_tokens = o;
  max_uncached_tokens = u;
}

abbrev pub is_type : Option Text → Text → Bool
is_type none t = false
is_type (some s) t = text_eq s t

unfoldable pub default_limits : Option Text → Limits
default_limits canonical =
    if is_type canonical (codes "fusion:trivial-worker")
    then limits_of 300000 120000 24 32000 240000
    else if is_type canonical (codes "fusion:job-collector")
    then limits_of 660000 660000 9 8000 30000
    else if is_type canonical (codes "fusion:deep-reasoner")
    then limits_of 2400000 900000 40 128000 960000
    else limits_of 2400000 600000 100 192000 960000

-- `Math.round(value * multiplier)` for the multipliers 0.5, 2 and 1; a half is rounded up.
unfoldable pub scaled : Option Text → ℕ → ℕ
scaled sizing n =
    if is_type sizing (codes "small")
    then (n + 1) / 2
    else if is_type sizing (codes "large")
    then n * 2
    else n

-- The two variables of the environment that replace limits.
pub record BudgetEnv : Type 0 where
  pub wall_clock_ms : Option Text
  pub stall_ms : Option Text

unfoldable pub worker_limits : Option Text → BudgetEnv → Option Text → Limits
worker_limits agent_type env sizing =
    let defaults = default_limits (canonical_worker_agent_type agent_type) in
    record {
      wall_clock_ms = positive_integer env.wall_clock_ms (scaled sizing defaults.wall_clock_ms);
      stall_ms = positive_integer env.stall_ms (scaled sizing defaults.stall_ms);
      max_turns = scaled sizing defaults.max_turns;
      max_output_tokens = scaled sizing defaults.max_output_tokens;
      max_uncached_tokens = scaled sizing defaults.max_uncached_tokens;
    }

pub record Usage : Type 0 where
  pub turns : ℕ
  pub output_tokens : ℕ
  pub uncached_tokens : ℕ

abbrev base_turns : Option Counters → ℕ
base_turns none = 0
base_turns (some b) = or_else b.turns 0

abbrev base_output : Option Counters → ℕ
base_output none = 0
base_output (some b) = or_else b.output_tokens 0

abbrev base_uncached : Option Counters → ℕ
base_uncached none = 0
base_uncached (some b) = or_else b.uncached_tokens 0

-- `Math.max(0, total - base)` is the subtraction of the natural numbers.
unfoldable pub worker_round_usage : WorkerRecord → Usage
worker_round_usage r = record {
  turns = or_else r.turns 0 - base_turns r.budget_baseline;
  output_tokens = or_else r.usage.output_tokens 0 - base_output r.budget_baseline;
  uncached_tokens = or_else r.usage.uncached_tokens 0 - base_uncached r.budget_baseline;
}

-- The reason text names the limit that was reached, which stands for it here.
pub record BudgetFailure : Type 0 where
  pub failure_kind : Text
  pub limit_kind : Text
  pub limit : ℕ

abbrev baseline_at : Option Counters → Option Text
baseline_at none = none
baseline_at (some b) = b.at

-- `left ?? right`.
abbrev pub or_text : Option Text → Option Text → Option Text
or_text none t = t
or_text (some s) t = some s

-- A time is known and `limit` milliseconds have passed since.
abbrev pub is_over : Option ℕ → ℕ → ℕ → Bool
is_over none limit now = false
is_over (some t) limit now = leb (t + limit) now

abbrev execution_agents : List Text
execution_agents = codes "fusion:claude-worker" ∷ codes "fusion:trivial-worker" ∷ []

abbrev is_execution_agent : Option Text → Bool
is_execution_agent none = false
is_execution_agent (some t) = has execution_agents t

abbrev usage_failure : Usage → Limits → Option BudgetFailure
usage_failure u l =
    if leb l.max_turns u.turns
    then some (record {
      failure_kind = codes "turn_limit";
      limit_kind = codes "turns";
      limit = l.max_turns;
    })
    else if leb l.max_output_tokens u.output_tokens
    then some (record {
      failure_kind = codes "token_limit";
      limit_kind = codes "output";
      limit = l.max_output_tokens;
    })
    else if leb l.max_uncached_tokens u.uncached_tokens
    then some (record {
      failure_kind = codes "token_limit";
      limit_kind = codes "uncached";
      limit = l.max_uncached_tokens;
    })
    else none

abbrev pub is_truthy : Option Text → Bool
is_truthy none = false
is_truthy (some t) = not (is_empty t)

-- `Date.parse` of the host, in milliseconds since 1970; `none` where it gives NaN, or a time before.
module _ (parse_date : Text → Option ℕ) where
  abbrev pub round_started : WorkerRecord → Option ℕ
  round_started r =
      parse_date
        (or_else (or_text (baseline_at r.budget_baseline) (or_text r.started_at r.created_at)) [])

  abbrev pub last_alive : WorkerRecord → Option ℕ
  last_alive r =
      parse_date (or_else (or_text r.last_liveness_at (or_text r.started_at r.created_at)) [])

  -- The no-activity budget is for agents that execute, or that wait for a command, with no call in flight.
  abbrev pub is_watched : WorkerRecord → Bool
  is_watched r =
      (is_execution_agent (canonical_worker_agent_type r.agent_type)
        || r.awaiting_background_command)
      && not (is_truthy r.in_flight_since)

  abbrev pub limit_failure : WorkerRecord → ℕ → Limits → Option BudgetFailure
  limit_failure r now l =
      if is_over (round_started r) l.wall_clock_ms now
      then some (record {
        failure_kind = codes "timeout";
        limit_kind = codes "wall";
        limit = l.wall_clock_ms;
      })
      else if is_watched r && is_over (last_alive r) l.stall_ms now
      then some
          (record { failure_kind = codes "stall"; limit_kind = codes "stall"; limit = l.stall_ms })
      else usage_failure (worker_round_usage r) l

  abbrev pub failure_under : WorkerRecord → ℕ → Option Limits → Option BudgetFailure
  failure_under r now none = none
  failure_under r now (some l) = limit_failure r now l

  unfoldable pub worker_budget_failure : WorkerRecord → ℕ → Option BudgetFailure
  worker_budget_failure r now = failure_under r now r.limits

-- The update that `markBudgetFailure` hands to the store at the time `at`: `none` writes nothing.
unfoldable pub mark_budget_failure :
    BudgetFailure → Text → Option WorkerRecord → Option WorkerRecord
mark_budget_failure f at none = none
mark_budget_failure f at (some r) =
    if has worker_terminal_statuses r.transport_status
    then none
    else some (record r {
      transport_status = codes "cancel_requested";
      failure_kind = some f.failure_kind;
      limit_kind = some f.limit_kind;
      cancel_limit = some f.limit;
      cancel_requested_at = some at;
    })
