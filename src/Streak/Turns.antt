-- ===== src/Streak/Turns.antt =====
-- plugins/fusion/scripts/lib/guard/read-streak.mjs, `handleReadStreak`: the count of read only turns.
use claude_code_fusion.Common.{
  ℕ, zero, suc, ◌+◌, Bool, true, false, not, ◌&&◌, ◌||◌, Option, none, some, List, [], ◌∷◌, ◌==◌,
  leb, if◌then◌else◌, map,
}
use claude_code_fusion.Common.Text.{Text, codes, text_eq, has, is_empty}
use claude_code_fusion.Streak.Commands.{is_read_only_bash}

abbrev pub read_tools : List Text
read_tools = map codes ("Read" ∷ "Grep" ∷ "Glob" ∷ [])

abbrev pub write_tools : List Text
write_tools = map codes ("Edit" ∷ "Write" ∷ "NotebookEdit" ∷ "MultiEdit" ∷ [])

abbrev pub delegation_tools : List Text
delegation_tools = map codes ("Agent" ∷ "Task" ∷ "SendMessage" ∷ [])

abbrev pub bash_tool : Text
bash_tool = codes "Bash"

-- The two fields of the guard's state that the streak uses, as `normalizeState` returns them; a time is
-- in milliseconds since 1970.
pub record Streak : Type 0 where
  pub read_streak_turns : ℕ
  pub last_read_at : Option ℕ

abbrev pub default_streak : Streak
default_streak = record { read_streak_turns = 0; last_read_at = none }

-- What the hook is given: `command` is `tool_input.command`, if it is a string.
pub record Call : Type 0 where
  pub has_agent_id : Bool
  pub hook_event_name : Option Text
  pub tool_name : Text
  pub command : Option Text

abbrev is_reading_command : Option Text → Bool
is_reading_command none = false
is_reading_command (some command) = is_read_only_bash command

unfoldable pub is_read : Call → Bool
is_read c =
    has read_tools c.tool_name || (text_eq c.tool_name bash_tool && is_reading_command c.command)

unfoldable pub is_reset : Call → Bool
is_reset c =
    not (is_read c)
    && (text_eq c.tool_name bash_tool
        || has write_tools c.tool_name
        || has delegation_tools c.tool_name)

-- The hook event is named, and not the one before a tool.
abbrev pub other_event : Option Text → Bool
other_event none = false
other_event (some name) = not (is_empty name) && not (text_eq name (codes "PreToolUse"))

-- `Number.isInteger(Math.log2(turns / 5))` for `turns >= 5`: one of `base`, twice `base` and so on. The
-- host's logarithm decides so for every count below 2 ^ 40.
unfoldable pub is_doubled : ℕ → ℕ → ℕ → Bool
is_doubled zero base turns = false
is_doubled (suc fuel) base turns = base == turns || is_doubled fuel (base + base) turns

unfoldable pub is_advisory_turn : ℕ → Bool
is_advisory_turn turns = leb 5 turns && is_doubled turns 5 turns

-- `elapsed >= 0 && elapsed <= 1500` fails.
unfoldable pub is_new_turn : Option ℕ → ℕ → Bool
is_new_turn none now = true
is_new_turn (some last) now = not (leb last now && leb now (last + 1500))

-- What the locked callback writes, if it writes, and the count that it returns.
abbrev Written : Type 0
Written = Option Streak × ℕ

abbrev pub or_default : Option Streak → Streak
or_default none = default_streak
or_default (some s) = s

abbrev pub advised : Streak → Bool → ℕ
advised s new = if new && is_advisory_turn s.read_streak_turns then s.read_streak_turns else 0

abbrev pub after_read : Streak → ℕ → Bool → Streak
after_read s now new = record {
  read_streak_turns = if new then suc s.read_streak_turns else s.read_streak_turns;
  last_read_at = some now;
}

abbrev read_turn : Streak → ℕ → Bool → Written
read_turn s now new = (some (after_read s now new), advised (after_read s now new) new)

abbrev has_no_turns : Option Streak → Bool
has_no_turns none = true
has_no_turns (some s) = s.read_streak_turns == 0

unfoldable pub streak_update : Bool → ℕ → Option Streak → Written
streak_update reset now existing =
    let s = or_default existing in
    if reset
    then if has_no_turns existing then (none, 0) else (some default_streak, 0)
    else read_turn s now (is_new_turn s.last_read_at now)

abbrev pub stored : Option Streak → Written → Option Streak
stored existing (none, turns) = existing
stored existing (some s, turns) = some s

abbrev advisory : Written → Option ℕ
advisory (s, zero) = none
advisory (s, suc n) = some (suc n)

-- The state file behind a call, and the count in the advisory, if there is one. Where another process
-- has the lock, the callback is not run.
unfoldable pub handle_read_streak : Call → Bool → ℕ → Option Streak → Option Streak × Option ℕ
handle_read_streak c locked now existing =
    if c.has_agent_id || other_event c.hook_event_name || not (is_read c || is_reset c) || locked
    then (existing, none)
    else (
      stored existing (streak_update (is_reset c) now existing),
      advisory (streak_update (is_reset c) now existing),
    )
