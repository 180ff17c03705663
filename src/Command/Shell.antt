-- ===== src/Command/Shell.antt =====
-- A small shell, against which plugins/fusion/scripts/lib/verification-command.mjs is judged: a list of
-- commands is run by its separators, and `set` turns `pipefail` on and off as it is run. Which texts are
-- such a `set` is what the source takes for one.
use claude_code_fusion.Common.{
  ℕ, Bool, true, false, not, ◌&&◌, Option, none, some, List, [], ◌∷◌, ◌==◌, if◌then◌else◌, head?,
}
use claude_code_fusion.Common.Text.{Text}
use claude_code_fusion.Command.Segments.{Separator, and_then, or_else_run, pipe, Segment}
use claude_code_fusion.Command.Recognize.{turns_on, turns_off, is_pipe, separator_of}

-- The status of the last pipeline, whether that one was run, and the option. A pipeline that is not run
-- leaves the status as it is.
pub record Shell : Type 0 where
  pub status : ℕ
  pub active : Bool
  pub pipefail : Bool

abbrev pub fresh : Shell
fresh = record { status = 0; active = true; pipefail = false }

-- Under `pipefail` a pipeline's status is the last failure in it, else that of its last command.
abbrev joined : Bool → ℕ → ℕ → ℕ
joined pipefail before now = if pipefail && now == 0 then before else now

module _ (exit_of : Text → ℕ) where
  -- The command `c` behind a separator: the status, and whether it is run.
  abbrev pub behind : Option Separator → Text → Shell → Shell
  behind (some and_then) c s =
      if s.status == 0
      then record s { status = exit_of c; active = true }
      else record s { active = false }
  behind (some or_else_run) c s =
      if s.status == 0
      then record s { active = false }
      else record s { status = exit_of c; active = true }
  behind (some pipe) c s =
      if s.active then record s { status = joined s.pipefail s.status (exit_of c) } else s
  behind _ c s = record s { status = exit_of c; active = true }

  -- A `set` that is run has its effect; in a pipeline it is run by a shell of its own.
  unfoldable pub option_behind : Option Separator → Text → Option Separator → Shell → Bool
  option_behind before c after s =
      if (behind before c s).active && (not (is_pipe before) && not (is_pipe after))
      then if turns_on c then true else if turns_off c then false else s.pipefail
      else s.pipefail

  abbrev pub step : Option Separator → Text → Option Separator → Shell → Shell
  step before c after s = record (behind before c s) { pipefail = option_behind before c after s }

  -- A list of commands, of which the first stands behind `before`.
  unfoldable pub run_from : Option Separator → Shell → List Segment → Shell
  run_from before s [] = s
  run_from before s (c ∷ rest) =
      let after = separator_of (head? rest) in run_from after (step before c.command after s) rest

  -- A whole command line.
  abbrev pub run : List Segment → Shell
  run = run_from none fresh
