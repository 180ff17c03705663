-- ===== src/Command/Tests.antt =====
-- Runs of plugins/fusion/scripts/lib/verification-command.mjs, and its theorems at such inputs.
use Prim.Native.String.{String}
use claude_code_fusion.Common.{ap, ℕ, if◌then◌else◌, ◌≡◌, refl, true, false, none, some, [], ◌∷◌}
use claude_code_fusion.Common.Text.{
  Text, codes, text_eq, has, trim, trim_start, split_on, words_onto, starts_with,
}
use claude_code_fusion.Common.Regex.{regex_code}
use claude_code_fusion.Command.Segments.{
  Segment, semicolon, and_then, pipe, separator_at, push_segment, cut_unit, cut_from,
  command_segments,
}
use claude_code_fusion.Command.Runners.{
  command_head, tokenize, after_subcommand, strip_wrappers, positionals_of, matches_package_manager,
  matches_runner,
}
use claude_code_fusion.Command.Recognize.{
  is_verification_segment, turns_on, turns_off, pipefail_from, last_match, all_pass,
  verification_command,
}
use claude_code_fusion.Common.Json.{Fields, number, string, end, field, get}
use claude_code_fusion.Command.Evidence.{
  output_summary, verification_response_failed, tool_response_text, output_passes, output_fails,
  verification_output_summary, verification_evidence,
}
use claude_code_fusion.Command.Status.{verification_command-shows}
use claude_code_fusion.Command.Shell.{run, run_from, option_behind}

-- The functions that a run computes with.
command_code : Unit {0}
unfolding regex_code text_eq has trim trim_start split_on words_onto starts_with separator_at
    push_segment cut_unit cut_from command_segments command_head tokenize after_subcommand
    strip_wrappers positionals_of matches_package_manager matches_runner is_verification_segment
    turns_on turns_off pipefail_from last_match all_pass verification_command get
    verification_response_failed tool_response_text output_passes output_fails
    verification_output_summary verification_evidence
command_code = tt

abbrev seg : String → Segment
seg s = record { command = codes s; separator = none }

segments_demo :
    command_segments (codes "cd 'a;b' && npm test | tail -5")
    ≡ seg "cd 'a;b'"
      ∷ record { command = codes "npm test"; separator = some and_then }
      ∷ record { command = codes "tail -5"; separator = some pipe }
      ∷ []
unfolding command_code
segments_demo = refl

verification_demo :
    verification_command none (codes "cd app && CI=1 npx vitest run")
    ≡ record { recognized = true; observable = true }
unfolding command_code
verification_demo = refl

piped :
    verification_command none (codes "npm test | tail -5")
    ≡ record { recognized = true; observable = false }
unfolding command_code
piped = refl

piped_safely :
    verification_command none (codes "set -o pipefail; npm test | tail -5")
    ≡ record { recognized = true; observable = true }
unfolding command_code
piped_safely = refl

-- The verification of this command is never run, and its status counts as observed.
skipped :
    verification_command none (codes "true || npm test")
    ≡ record { recognized = true; observable = true }
unfolding command_code
skipped = refl

-- Nor is the `set` of this command ever run, and the option counts as on.
option_skipped :
    verification_command none (codes "false && set -o pipefail; npm test | tail -5")
    ≡ record { recognized = true; observable = true }
unfolding command_code
option_skipped = refl

abbrev piped_line : Text
piped_line = codes "set -o pipefail; npm test | tail -5"

-- Every command succeeds but the one named `lint`.
abbrev all_well : Text → ℕ
all_well c = if text_eq c (codes "lint") then 1 else 0

pipefail_set_well : all_well (codes "set -o pipefail") ≡ 0
unfolding text_eq
pipefail_set_well = refl

abbrev pipefail_set : Segment
pipefail_set = record { command = codes "set -o pipefail"; separator = none }

abbrev npm_test : Segment
npm_test = record { command = codes "npm test"; separator = some semicolon }

abbrev tail_five : Segment
tail_five = record { command = codes "tail -5"; separator = some pipe }

piped_splits : command_segments (trim piped_line) ≡ pipefail_set ∷ npm_test ∷ tail_five ∷ []
unfolding command_code
piped_splits = refl

npm_test_fits : is_verification_segment none (codes "npm test") ≡ true
unfolding command_code
npm_test_fits = refl

tail_five_fits_not : is_verification_segment none (codes "tail -5") ≡ false
unfolding command_code
tail_five_fits_not = refl

npm_test_runs : (run all_well (pipefail_set ∷ npm_test ∷ [])).active ≡ true
unfolding run_from option_behind command_code
npm_test_runs = refl

piped_succeeds : (run all_well (command_segments (trim piped_line))).status ≡ 0
unfolding run_from option_behind command_code
piped_succeeds = refl

-- The shell reports the failure of the verification in front of a pipe.
piped_fails :
    (run
      (λ c. if text_eq c (codes "npm test") then 1 else 0)
      (command_segments (trim piped_line))).status
    ≡ 1
unfolding run_from option_behind command_code
piped_fails = refl

verification_command-shows_example : all_well (codes "npm test") ≡ 0
verification_command-shows_example =
    verification_command-shows none piped_line all_well (pipefail_set ∷ []) npm_test
      (tail_five ∷ []) (ap (λ x. x.observable) piped_safely) piped_splits npm_test_fits
      (tail_five_fits_not, tt) (pipefail_set_well, tt) npm_test_runs piped_succeeds

abbrev passing : Fields
passing =
    field (codes "stdout") (string (codes " Tests  3 passed (3)\n"))
      (field (codes "exitCode") (number 0) end)

evidence_demo :
    verification_evidence none (codes "npm test | tail -5") (some passing) ≡ some output_summary
unfolding command_code
evidence_demo = refl
