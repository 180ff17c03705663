-- ===== src/Breaker/Standing.antt =====
-- plugins/fusion/scripts/breaker-check.mjs: failures with no success behind them.
use claude_code_fusion.Common.{
  ℕ, ◌+◌, ◌≤◌, ◌≡◌, Bool, true, false, ◌||◌, some, List, ◌∷◌, ◌++◌, All,
}
use claude_code_fusion.Common.Text.{Text, codes, text_eq, has}
use claude_code_fusion.Breaker.Kinds.{hard_failure_kinds, repeated_failure_kinds}
use claude_code_fusion.Breaker.Records.{Failure}
use claude_code_fusion.Breaker.Latest.{Outcome}

abbrev pub NoSuccess : Outcome → Type 0
NoSuccess o = o.succeeded ≡ false

-- `o` is a failure that counts, and `f` is its report.
abbrev pub Reports : Outcome → Failure → Type 0
Reports o f =
    (o.succeeded ≡ false)
    × (o.ignored ≡ false)
    × (o.failure_kind ≡ some f.failure_kind)
    × (o.timestamp ≡ f.timestamp)
    × (o.version ≡ f.version)

abbrev pub is_hard : Text → Bool
is_hard k = has hard_failure_kinds k || text_eq k (codes "permission")

-- `f` is reported by an outcome with no success behind it.
pub record Standing (os : List Outcome) (f : Failure) : Type 0 where
  pub before : List Outcome
  pub outcome : Outcome
  pub after : List Outcome
  pub splits : os ≡ before ++ outcome ∷ after
  pub reports : Reports outcome f
  pub no_success : All NoSuccess after

abbrev pub Hard : List Outcome → Failure → Type 0
Hard os f = Standing os f × (is_hard f.failure_kind ≡ true)

abbrev pub Transient : List Outcome → Failure → Type 0
Transient os f =
    Standing os f
    × (is_hard f.failure_kind ≡ false)
    × (has repeated_failure_kinds f.failure_kind ≡ true)

-- `f` stands, and so does an earlier outcome of its kind at most the lookback before it.
pub record Repeated (lookback : ℕ) (os : List Outcome) (f : Failure) : Type 0 where
  pub before : List Outcome
  pub outcome : Outcome
  pub after : List Outcome
  pub splits : os ≡ before ++ outcome ∷ after
  pub reports : Reports outcome f
  pub no_success : All NoSuccess after
  pub first : Failure
  pub first_stands : Transient before first
  pub same : first.failure_kind ≡ f.failure_kind
  pub near : f.timestamp ≤ first.timestamp + lookback
