-- ===== src/Command/Recognize.antt =====
-- plugins/fusion/scripts/lib/verification-command.mjs: `verificationCommand`.
use claude_code_fusion.Common.{
  ℕ, Bool, true, false, not, ◌&&◌, ◌||◌, Option, none, some, List, [], ◌∷◌, ltb, leb, if◌then◌else◌,
  length, head?,
}
use claude_code_fusion.Common.Text.{Text, codes, has, trim, is_blank, is_empty}
use claude_code_fusion.Common.Regex.{
  Regex, star, unit, at_start, at_end, space, plus, lit, then_all, test_i,
}
use claude_code_fusion.Command.Segments.{
  Separator, and_then, or_else_run, pipe, semicolon, newline, return, Segment, command_segments,
}
use claude_code_fusion.Command.Runners.{
  tokenize, strip_wrappers, command_head, navigation_heads, matches_package_manager, matches_runner,
}

-- The pattern of the environment. `compile` is the host's `new RegExp`, with `none` where it throws.
module _ (compile : Text → Option (Text → Bool)) where
  unfoldable pub custom_pattern : Option Text → Option (Text → Bool)
  custom_pattern none = none
  custom_pattern (some raw) =
      if is_blank raw || ltb 512 (length raw) then none else compile (trim raw)

abbrev pattern_fits : Option (Text → Bool) → Text → Bool
pattern_fits none t = false
pattern_fits (some p) t = p t

abbrev runs_verification : List Text → Bool
runs_verification [] = false
runs_verification (t ∷ ts) =
    let head = command_head t in
    if has navigation_heads head
    then false
    else matches_package_manager head (t ∷ ts) || matches_runner head (t ∷ ts)

unfoldable pub is_verification_segment : Option (Text → Bool) → Text → Bool
is_verification_segment pattern segment =
    if pattern_fits pattern segment
    then true
    else runs_verification (strip_wrappers 4 (tokenize segment))

-- `/^set\s+-[a-z]*o\s+pipefail$/i` and `/^set\s+\+(?:[a-z]*o)\s+pipefail$/i`.
abbrev letter : Regex
letter = unit (λ c. leb b'a' c && leb c b'z')

abbrev set_pattern : ℕ → Regex
set_pattern sign = then_all (
    at_start
    ∷ lit (codes "set")
    ∷ plus space
    ∷ lit (sign ∷ [])
    ∷ star letter
    ∷ lit (codes "o")
    ∷ plus space
    ∷ lit (codes "pipefail")
    ∷ at_end
    ∷ [])

unfoldable pub turns_on : Text → Bool
turns_on command = test_i (set_pattern b'-') command

unfoldable pub turns_off : Text → Bool
turns_off command = test_i (set_pattern b'+') command

abbrev pub is_pipe : Option Separator → Bool
is_pipe (some pipe) = true
is_pipe _ = false

abbrev pub is_and : Option Separator → Bool
is_and (some and_then) = true
is_and _ = false

-- `[";", "\n", "\r", "&&"].includes(previous.separator)`.
abbrev pub is_plain : Option Separator → Bool
is_plain none = false
is_plain (some and_then) = true
is_plain (some or_else_run) = false
is_plain (some pipe) = false
is_plain (some semicolon) = true
is_plain (some newline) = true
is_plain (some return) = true

abbrev pub separator_of : Option Segment → Option Separator
separator_of none = none
separator_of (some s) = s.separator

-- The option behind one segment; `plain` says that each separator up to it, the first segment's apart,
-- is a plain one.
abbrev pub pipefail_behind : Bool → Bool → Segment → Option Segment → Bool
pipefail_behind pipefail plain s next =
    if turns_on s.command && not (is_pipe (separator_of next)) && plain
    then true
    else if turns_off s.command
    then false
    else pipefail

abbrev pub plain_to : Bool → Option Segment → Bool
plain_to plain none = plain
plain_to plain (some s) = plain && is_plain s.separator

-- `pipefailAtSegment`.
unfoldable pub pipefail_from : Bool → Bool → List Segment → List Bool
pipefail_from pipefail plain [] = []
pipefail_from pipefail plain (s ∷ rest) =
    let now = pipefail_behind pipefail plain s (head? rest) in
    now ∷ pipefail_from now (plain_to plain (head? rest)) rest

-- The segments behind the last one that matches, each with the option behind the segment before it; and
-- `none` where no segment matches.
abbrev pub Tail : Type 0
Tail = List (Segment × Bool)

abbrev pub pair_tail : Bool → List Segment → List Bool → Tail
pair_tail before [] options = []
pair_tail before (s ∷ rest) [] = []
pair_tail before (s ∷ rest) (o ∷ options) = (s, before) ∷ pair_tail o rest options

unfoldable pub last_match : (Text → Bool) → List Segment → List Bool → Option Tail
last_match matches [] options = none
last_match matches (s ∷ rest) [] = none
last_match matches (s ∷ rest) (o ∷ options) = elim (last_match matches rest options) [
  | some tail ↦ some tail
  | none ↦ if matches s.command then some (pair_tail o rest options) else none
]

abbrev passes_status : Segment × Bool → Bool
passes_status (s, pipefail) = is_and s.separator || (is_pipe s.separator && pipefail)

unfoldable pub all_pass : Tail → Bool
all_pass [] = true
all_pass (s ∷ rest) = passes_status s && all_pass rest

pub record Verification : Type 0 where
  pub recognized : Bool
  pub observable : Bool

abbrev verification_of : Option Tail → Verification
verification_of none = record { recognized = false; observable = false }
verification_of (some tail) = record { recognized = true; observable = all_pass tail }

-- `verificationCommand`, for a command that is a string.
unfoldable pub verification_command : Option (Text → Bool) → Text → Verification
verification_command pattern command =
    let trimmed = trim command in
    let segments = command_segments trimmed in
    if is_empty trimmed || ltb 16384 (length trimmed)
    then record { recognized = false; observable = false }
    else verification_of
        (last_match (is_verification_segment pattern) segments (pipefail_from false true segments))
