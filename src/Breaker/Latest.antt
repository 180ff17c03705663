-- ===== src/Breaker/Latest.antt =====
-- plugins/fusion/scripts/breaker-check.mjs, `latestBreakerFailure`: the outcomes of the window in
-- order of time, and the failure for which the breaker is open.
use claude_code_fusion.Common.{
  ℕ, suc, ◌+◌, Bool, false, not, ◌&&◌, ◌||◌, Option, none, some, List, [], ◌∷◌, ◌++◌, leb, ltb,
  if◌then◌else◌, or_else, length,
}
use claude_code_fusion.Common.Text.{Text, codes, text_eq, has}
use claude_code_fusion.Breaker.Kinds.{
  hard_failure_kinds, repeated_failure_kinds, pool_scoped_kinds, failure_statuses, success_statuses,
  terminal_statuses,
}
use claude_code_fusion.Breaker.Records.{
  JobRecord, Failure, has_field, is_within_lookback, normalized_recorded_failure_kind,
  record_timestamp,
}

pub data Scope : Type 0 where
  engine pool : Scope

pub record Outcome : Type 0 where
  pub failure_kind : Option Text
  pub ignored : Bool
  pub succeeded : Bool
  pub timestamp : ℕ
  pub version : Option Text

abbrev kind_in : List Text → Option Text → Bool
kind_in kinds none = false
kind_in kinds (some k) = has kinds k

abbrev same_kind : Option Text → Option Text → Bool
same_kind none k = false
same_kind (some j) none = false
same_kind (some j) (some k) = text_eq j k

-- `scope !== null && (scope === "pool") !== POOL_SCOPED_KINDS.has(kind)`.
unfoldable pub out_of_scope : Option Scope → Text → Bool
out_of_scope none kind = false
out_of_scope (some engine) kind = has pool_scoped_kinds kind
out_of_scope (some pool) kind = not (has pool_scoped_kinds kind)

abbrev kind_of : Option Failure → Option Text
kind_of none = none
kind_of (some f) = some f.failure_kind

abbrev version_of : Option Failure → Option Text
version_of none = none
version_of (some f) = f.version

-- The object that the loop pushes for a terminal record.
unfoldable pub outcome_of : Option Scope → JobRecord → ℕ → Option Failure → Outcome
outcome_of scope r t failure =
    let kind = or_else (kind_of failure) (normalized_recorded_failure_kind r) in
    let ignored = has_field failure_statuses r.status && out_of_scope scope kind in
    record {
      failure_kind = if ignored then none else kind_of failure;
      ignored = ignored;
      succeeded = has_field success_statuses r.status;
      timestamp = t;
      version = version_of failure;
    }

abbrev pub outcome_at :
    ℕ → ℕ → Option Scope → (JobRecord → Option Failure) → JobRecord → Option ℕ → List Outcome
outcome_at now lookback scope reader r none = []
outcome_at now lookback scope reader r (some t) =
    if not (is_within_lookback t now lookback)
    then []
    else if has_field terminal_statuses r.status
    then outcome_of scope r t (reader r) ∷ []
    else []

unfoldable pub outcomes_of :
    (Text → Option ℕ)
    → ℕ
    → ℕ
    → Option Scope
    → (JobRecord → Option Failure)
    → List JobRecord
    → List Outcome
outcomes_of parse_date now lookback scope reader [] = []
outcomes_of parse_date now lookback scope reader (r ∷ rs) =
    outcome_at now lookback scope reader r (record_timestamp parse_date r)
    ++ outcomes_of parse_date now lookback scope reader rs

-- The comparator of `outcomes.sort`: `o` may stand in front of `p`.
abbrev is_before : Outcome → Outcome → Bool
is_before o p = leb o.timestamp p.timestamp

-- The host's sort by that comparator, which leaves equal ones in their order.
unfoldable pub insert_outcome : Outcome → List Outcome → List Outcome
insert_outcome o [] = o ∷ []
insert_outcome o (p ∷ ps) =
    let later = p ∷ insert_outcome o ps in if is_before o p then o ∷ p ∷ ps else later

unfoldable pub sort_outcomes : List Outcome → List Outcome
sort_outcomes [] = []
sort_outcomes (o ∷ os) = insert_outcome o (sort_outcomes os)

-- The variables of the second loop.
pub record Breaker : Type 0 where
  pub immediate : Option Failure
  pub previous : Option Failure
  pub repeated : Option Failure

abbrev pub closed : Breaker
closed = record { immediate = none; previous = none; repeated = none }

abbrev pub failure_with : Text → Outcome → Failure
failure_with k o = record { failure_kind = k; timestamp = o.timestamp; version = o.version }

-- The previous failure that was not a hard one is of the same kind, and near enough.
abbrev pub repeats : ℕ → Text → Outcome → Option Failure → Bool
repeats lookback k o none = false
repeats lookback k o (some p) = text_eq p.failure_kind k && leb o.timestamp (p.timestamp + lookback)

abbrev pub fail_step : ℕ → Breaker → Outcome → Option Text → Breaker
fail_step lookback b o none = record b { previous = none; repeated = none }
fail_step lookback b o (some k) =
    if has hard_failure_kinds k || text_eq k (codes "permission")
    then record { immediate = some (failure_with k o); previous = none; repeated = none }
    else if not (has repeated_failure_kinds k)
    then record b { previous = none; repeated = none }
    else record b {
      previous = some (failure_with k o);
      repeated = if repeats lookback k o b.previous then some (failure_with k o) else b.repeated;
    }

-- One round of the loop.
unfoldable pub breaker_step : ℕ → Breaker → Outcome → Breaker
breaker_step lookback b o =
    if o.succeeded then closed else if o.ignored then b else fail_step lookback b o o.failure_kind

unfoldable pub run_breaker : ℕ → Breaker → List Outcome → Breaker
run_breaker lookback b [] = b
run_breaker lookback b (o ∷ os) = run_breaker lookback (breaker_step lookback b o) os

unfoldable pub newer_failure : Option Failure → Option Failure → Option Failure
newer_failure none right = right
newer_failure (some f) none = some f
newer_failure (some f) (some g) = if ltb f.timestamp g.timestamp then some g else some f

unfoldable pub verdict : ℕ → List Outcome → Option Failure
verdict lookback os = let b = run_breaker lookback closed os in newer_failure b.immediate b.repeated

unfoldable pub count_kind : Text → List Outcome → ℕ
count_kind k [] = 0
count_kind k (o ∷ os) =
    let rest = count_kind k os in if same_kind o.failure_kind (some k) then suc rest else rest

pub record Advice : Type 0 where
  pub failure : Failure
  pub kind_count : ℕ
  pub terminal_count : ℕ

abbrev pub advise : List Outcome → Option Failure → Option Advice
advise os none = none
advise os (some f) =
    some (record {
      failure = f;
      kind_count = count_kind f.failure_kind os;
      terminal_count = length os;
    })

unfoldable pub latest_breaker_failure :
    (Text → Option ℕ)
    → List JobRecord
    → (JobRecord → Option Failure)
    → ℕ
    → ℕ
    → Option Scope
    → Option Advice
latest_breaker_failure parse_date rs reader now lookback scope =
    let os = sort_outcomes (outcomes_of parse_date now lookback scope reader rs) in
    advise os (verdict lookback os)
