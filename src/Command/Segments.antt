-- ===== src/Command/Segments.antt =====
-- plugins/fusion/scripts/lib/verification-command.mjs, `commandSegments`: a command line is cut at its
-- unquoted separators.
use claude_code_fusion.Common.{
  ℕ, Bool, true, false, ◌&&◌, ◌||◌, Option, none, some, List, [], ◌∷◌, ◌++◌, ◌==◌, if◌then◌else◌,
  head?,
}
use claude_code_fusion.Common.Text.{Text, trim, is_empty}

-- The separators; a pipe and a sequence are of one unit, the others of two.
pub data Separator : Type 0 where
  and_then or_else_run pipe semicolon newline return : Separator

pub record Segment : Type 0 where
  pub command : Text
  pub separator : Option Separator

-- The loop's variables: `current` is `command.slice(start, index)`, and `skip` says that the round
-- before took two units.
pub record Cutter : Type 0 where
  pub segments : List Segment
  pub current : Text
  pub separator : Option Separator
  pub quote : Option ℕ
  pub escaped : Bool
  pub skip : Bool

abbrev pub next_is : Option ℕ → ℕ → Bool
next_is none c = false
next_is (some d) c = d == c

-- The separator that starts at a unit, and whether it takes the next unit too.
unfoldable pub separator_at : ℕ → Option ℕ → Option (Separator × Bool)
separator_at c next =
    if c == b'&' && next_is next b'&'
    then some (and_then, true)
    else if c == b'|' && next_is next b'|'
    then some (or_else_run, true)
    else if c == b'|'
    then some (pipe, false)
    else if c == b';'
    then some (semicolon, false)
    else if c == b'\n'
    then some (newline, false)
    else if c == b'\r'
    then some (return, false)
    else none

abbrev append_unit : ℕ → Cutter → Cutter
append_unit c s = record s { current = s.current ++ c ∷ [] }

-- A segment that is only white space is dropped.
unfoldable pub push_segment : Text → Option Separator → List Segment → List Segment
push_segment current separator segments =
    if is_empty (trim current)
    then segments
    else segments ++ (record { command = trim current; separator = separator } ∷ [])

abbrev cut_at : ℕ → Cutter → Option (Separator × Bool) → Cutter
cut_at c s none = append_unit c s
cut_at c s (some (separator, two)) = record s {
  segments = push_segment s.current s.separator s.segments;
  current = [];
  separator = some separator;
  skip = two;
}

abbrev cut_quoted : ℕ → Option ℕ → Cutter → Option ℕ → Cutter
cut_quoted c next s (some q) =
    if c == q then record (append_unit c s) { quote = none } else append_unit c s
cut_quoted c next s none =
    if c == b'"' || c == b'\''
    then record (append_unit c s) { quote = some c }
    else cut_at c s (separator_at c next)

-- One round of the loop.
unfoldable pub cut_unit : ℕ → Option ℕ → Cutter → Cutter
cut_unit c next s =
    if s.skip
    then record s { skip = false }
    else if s.escaped
    then record (append_unit c s) { escaped = false }
    else if c == b'\\'
    then record (append_unit c s) { escaped = true }
    else cut_quoted c next s s.quote

unfoldable pub cut_from : Cutter → Text → List Segment
cut_from s [] = push_segment s.current s.separator s.segments
cut_from s (c ∷ cs) = cut_from (cut_unit c (head? cs) s) cs

abbrev uncut : Cutter
uncut = record {
  segments = [];
  current = [];
  separator = none;
  quote = none;
  escaped = false;
  skip = false;
}

unfoldable pub command_segments : Text → List Segment
command_segments command = cut_from uncut command
