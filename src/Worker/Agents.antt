-- ===== src/Worker/Agents.antt =====
-- plugins/fusion/scripts/lib/worker-state.mjs: the agent types and the final statuses of workers.
use claude_code_fusion.Common.{Option, none, some, List, [], ◌∷◌, if◌then◌else◌}
use claude_code_fusion.Common.Text.{Text, codes, text_eq}

abbrev pub worker_terminal_statuses : List Text
worker_terminal_statuses =
    codes "done"
    ∷ codes "incomplete"
    ∷ codes "failed"
    ∷ codes "cancelled"
    ∷ codes "owner_ended"
    ∷ []

abbrev agent_types : List (Text × Text)
agent_types =
    (codes "fusion:fast-worker", codes "fusion:fast-worker")
    ∷ (codes "fast-worker", codes "fusion:fast-worker")
    ∷ (codes "fusion:claude-worker", codes "fusion:claude-worker")
    ∷ (codes "claude-worker", codes "fusion:claude-worker")
    ∷ (codes "fusion:trivial-worker", codes "fusion:trivial-worker")
    ∷ (codes "trivial-worker", codes "fusion:trivial-worker")
    ∷ (codes "fusion:deep-reasoner", codes "fusion:deep-reasoner")
    ∷ (codes "deep-reasoner", codes "fusion:deep-reasoner")
    ∷ (codes "fusion:job-collector", codes "fusion:job-collector")
    ∷ (codes "job-collector", codes "fusion:job-collector")
    ∷ []

unfoldable pub type_in : List (Text × Text) → Text → Option Text
type_in [] t = none
type_in ((name, full) ∷ rest) t = if text_eq name t then some full else type_in rest t

abbrev typed : Option Text → Option Text
typed none = none
typed (some t) = type_in agent_types t

-- The argument is `none` where the value is no string.
unfoldable pub canonical_worker_agent_type : Option Text → Option Text
unfolding type_in
canonical_worker_agent_type = typed
