-- ===== src/Guard/Verify.antt =====
-- plugins/fusion/scripts/lib/guard/verification-events.mjs: a verification that passed ends the window of
-- writes, in the judgment posture.
use claude_code_fusion.Common.{Bool, ◌&&◌, Option, none, some, ltb, if◌then◌else◌}
use claude_code_fusion.Guard.State.{GuardState, reset_write_window}

-- The callback under the lock, for a response that is evidence; `none` writes nothing.
unfoldable pub verify_window : Bool → GuardState → Option GuardState
verify_window judgment s =
    if judgment && ltb 0 s.writes_since_dispatch then some (reset_write_window s) else none
