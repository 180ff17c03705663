-- ===== src/Breaker/Report.antt =====
-- plugins/fusion/scripts/breaker-check.mjs: the records of an engine without their older copies, and
-- the advices of a run.
use claude_code_fusion.Common.{
  ℕ, ◌-◌, ◌/◌, Bool, true, false, not, ◌&&◌, ◌||◌, Option, none, some, List, [], ◌∷◌, ◌++◌, map,
  ltb, if◌then◌else◌, keep,
}
use claude_code_fusion.Common.Text.{Text, codes, text_eq, has}
use claude_code_fusion.Breaker.Kinds.{terminal_statuses}
use claude_code_fusion.Breaker.Records.{
  Field, missing, string, other, JobRecord, has_field, trimmed, record_timestamp, engine_failure,
  worker_failure, broken_worker_statuses,
}
use claude_code_fusion.Worker.Agents.{canonical_worker_agent_type}
use claude_code_fusion.Breaker.Latest.{Scope, engine, pool, Advice, latest_breaker_failure}

abbrev pub is_terminal : JobRecord → Bool
is_terminal r = has_field terminal_statuses r.status

-- `left > right`, where a missing time is negative infinity.
abbrev pub later : Option ℕ → Option ℕ → Bool
later none t = false
later (some s) none = true
later (some s) (some t) = ltb t s

module _ (parse_date : Text → Option ℕ) where
  -- The test by which a record takes the place of the current one with its id.
  unfoldable pub outranks : JobRecord → JobRecord → Bool
  outranks r current =
      (is_terminal r && not (is_terminal current))
      || ((if is_terminal r then is_terminal current else not (is_terminal current))
          && later (record_timestamp parse_date r) (record_timestamp parse_date current))

  -- `byId`, a map in the order in which its keys were first set.
  unfoldable pub add_by_id : Text → JobRecord → List (Text × JobRecord) → List (Text × JobRecord)
  add_by_id id r [] = (id, r) ∷ []
  add_by_id id r ((j, c) ∷ m) =
      if text_eq j id then (j, if outranks r c then r else c) ∷ m else (j, c) ∷ add_by_id id r m

  abbrev pub add_record :
      Option Text
      → JobRecord
      → List JobRecord × List (Text × JobRecord)
      → List JobRecord × List (Text × JobRecord)
  add_record none r (without, by_id) = (without ++ r ∷ [], by_id)
  add_record (some id) r (without, by_id) = (without, add_by_id id r by_id)

  -- The loop over the records of all roots.
  unfoldable pub dedupe_from :
      List JobRecord × List (Text × JobRecord)
      → List JobRecord
      → List JobRecord × List (Text × JobRecord)
  dedupe_from s [] = s
  dedupe_from s (r ∷ rs) = dedupe_from (add_record (trimmed r.id) r s) rs

  abbrev pub second : Text × JobRecord → JobRecord
  second (id, r) = r

  unfoldable pub read_deduplicated_job_records : List JobRecord → List JobRecord
  read_deduplicated_job_records rs =
      let (without, by_id) = dedupe_from ([], []) rs in without ++ map second by_id

-- The billing pool of a record, or none.
abbrev pool_of : Field → Option Text
pool_of missing = none
pool_of (string t) = some t
pool_of other = none

abbrev same_pool : Option Text → Option Text → Bool
same_pool none none = true
same_pool (some a) (some b) = text_eq a b
same_pool _ _ = false

-- `pools.get(pool).push(record)`.
unfoldable pub add_to_pool :
    Option Text
    → JobRecord
    → List (Option Text × List JobRecord)
    → List (Option Text × List JobRecord)
add_to_pool p r [] = (p, r ∷ []) ∷ []
add_to_pool p r ((q, rs) ∷ m) =
    if same_pool q p then (q, rs ++ r ∷ []) ∷ m else (q, rs) ∷ add_to_pool p r m

unfoldable pub pools_from :
    List (Option Text × List JobRecord) → List JobRecord → List (Option Text × List JobRecord)
pools_from m [] = m
pools_from m (r ∷ rs) = pools_from (add_to_pool (pool_of r.billing_pool) r m) rs

-- `!pools.size || (pools.size === 1 && pools.has(null))`.
abbrev is_unpooled : List (Option Text × List JobRecord) → Bool
is_unpooled [] = true
is_unpooled ((none, rs) ∷ []) = true
is_unpooled _ = false

-- What a line of the report is made from: the lane, the pool if one is named, and the advice.
pub record Line : Type 0 where
  pub lane : Text
  pub pool : Option Text
  pub advice : Advice

abbrev line_for : Text → Option Text → Option Advice → List Line
line_for lane p none = []
line_for lane p (some a) = record { lane = lane; pool = p; advice = a } ∷ []

abbrev field_text : Field → Option Text
field_text missing = none
field_text (string t) = some t
field_text other = none

-- The engines, by the order of their table in plugins/fusion/scripts/lib/engines.mjs.
abbrev pub engine_ids : List Text
engine_ids = map codes ("codex" ∷ "grok" ∷ "cursor" ∷ "devin" ∷ [])

abbrev worker_breaker_lanes : List Text
worker_breaker_lanes = codes "fusion:claude-worker" ∷ codes "fusion:trivial-worker" ∷ []

module _ (parse_date : Text → Option ℕ) (now lookback : ℕ) where
  abbrev pub latest : Option Scope → List JobRecord → Option Advice
  latest scope rs =
      latest_breaker_failure parse_date rs (engine_failure parse_date now lookback) now lookback
        scope

  abbrev pool_lines : Text → List (Option Text × List JobRecord) → List Line
  pool_lines lane [] = []
  pool_lines lane ((p, rs) ∷ m) = line_for lane p (latest (some pool) rs) ++ pool_lines lane m

  -- The body of the loop over the engines.
  unfoldable pub engine_lines : Text → List JobRecord → List Line
  engine_lines lane all =
      let records = read_deduplicated_job_records parse_date all in
      let pools = pools_from [] records in
      if is_unpooled pools
      then line_for lane none (latest none records)
      else line_for lane none (latest (some engine) records) ++ pool_lines lane pools

  -- `{ ...record, status: … }` of `workerBreakerRecords`.
  abbrev worker_status : Field → Field
  worker_status missing = missing
  worker_status (string t) =
      if text_eq t (codes "done")
      then string (codes "done")
      else if has broken_worker_statuses t
      then string (codes "failed")
      else string t
  worker_status other = other

  abbrev as_job : JobRecord → JobRecord
  as_job r = record r { status = worker_status r.transport_status }

  -- The body of the loop over the lanes of workers.
  unfoldable pub worker_lines : Text → List JobRecord → List Line
  worker_lines lane rs = line_for lane none (
      latest_breaker_failure parse_date
        (map as_job (
          keep (λ r. same_pool (canonical_worker_agent_type (field_text r.agent_type)) (some lane))
            rs))
        (worker_failure parse_date now lookback) now lookback none)

  abbrev lines_of_engines : (Text → List JobRecord) → List Text → List Line
  lines_of_engines read [] = []
  lines_of_engines read (e ∷ es) = engine_lines e (read e) ++ lines_of_engines read es

  abbrev lines_of_lanes : List JobRecord → List Text → List Line
  lines_of_lanes rs [] = []
  lines_of_lanes rs (lane ∷ lanes) = worker_lines lane rs ++ lines_of_lanes rs lanes

  -- `run`: `read` gives the records in the roots of an engine, `workers` are those of the workers.
  unfoldable pub run : (Text → List JobRecord) → List JobRecord → List Line
  run read workers =
      engine_lines (codes "grok") (read (codes "grok"))
      ++ lines_of_engines read (keep (λ e. not (text_eq e (codes "grok"))) engine_ids)
      ++ lines_of_lanes workers worker_breaker_lanes

-- `formatAge`: the units and the count of an age; zero minutes are "less than 1 minute ago".
pub data Age : Type 0 where
  minutes hours days : ℕ → Age

unfoldable pub format_age : ℕ → ℕ → Age
format_age timestamp now =
    let total_minutes = (now - timestamp) / 60000 in
    let total_hours = total_minutes / 60 in
    if ltb total_minutes 60
    then minutes total_minutes
    else if ltb total_hours 24
    then hours total_hours
    else days (total_hours / 24)
