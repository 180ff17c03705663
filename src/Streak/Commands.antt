-- ===== src/Streak/Commands.antt =====
-- plugins/fusion/scripts/lib/guard/read-streak.mjs, `isReadOnlyBash`: a command that only reads.
use claude_code_fusion.Common.{
  ℕ, Bool, true, false, not, ◌&&◌, ◌||◌, Option, none, some, List, [], ◌∷◌, ◌++◌, ◌==◌, leb,
  if◌then◌else◌, or_else, any, every, get_elem?, map, head?,
}
use claude_code_fusion.Common.Text.{Text, codes, text_eq, has, starts_with, words}
use claude_code_fusion.Common.Regex.{
  Regex, unit, alt, star, at_start, at_end, word_boundary, space, lit, then_all, test,
}
use claude_code_fusion.Streak.Segments.{split_read_segments}

abbrev read_commands : List Text
read_commands = map codes (
    "cd" ∷ "cat" ∷ "grep" ∷ "rg" ∷ "head" ∷ "tail" ∷ "ls" ∷ "wc" ∷ "awk" ∷ "nl" ∷ "jq" ∷ "tree"
    ∷ [])

-- `arg.replace(/^['"]|['"]$/g, "")`.
abbrev quote_unit : ℕ → Bool
quote_unit c = c == b'\'' || c == b'"'

abbrev drop_first_quote : Text → Text
drop_first_quote [] = []
drop_first_quote (c ∷ cs) = if quote_unit c then cs else c ∷ cs

unfoldable pub drop_last_quote : Text → Text
drop_last_quote [] = []
drop_last_quote (c ∷ []) = if quote_unit c then [] else c ∷ []
drop_last_quote (c ∷ d ∷ cs) = c ∷ drop_last_quote (d ∷ cs)

unfoldable pub unquote_arg : Text → Text
unquote_arg t = drop_last_quote (drop_first_quote t)

abbrev any_of : List Regex → Regex
any_of [] = unit (λ c. false)
any_of (r ∷ rs) = alt r (any_of rs)

-- `/[>|]|\bsystem\b/`.
abbrev awk_pattern : Regex
awk_pattern =
    alt (unit (λ c. c == b'>' || c == b'|'))
      (then_all (word_boundary ∷ lit (codes "system") ∷ word_boundary ∷ []))

-- `/^-[^-]*i/`.
abbrev sed_flag : Regex
sed_flag =
    then_all
      (at_start ∷ lit (codes "-") ∷ star (unit (λ c. not (c == b'-'))) ∷ lit (codes "i") ∷ [])

abbrev behind_w : Regex
behind_w = alt space at_end

-- `/(?:^|[;{]|\d)\s*w(?:\s|$)|\/w(?:\s|$)/`.
abbrev sed_write : Regex
sed_write =
    alt
      (then_all (
        alt at_start (unit (λ c. c == b';' || c == b'{' || (leb b'0' c && leb c b'9')))
        ∷ star space
        ∷ lit (codes "w")
        ∷ behind_w
        ∷ []))
      (then_all (lit (codes "/w") ∷ behind_w ∷ []))

-- `/^-(?:delete|exec(?:dir)?|ok(?:dir)?|fprint|fprintf|fls)$/`.
abbrev find_action : Regex
find_action = then_all (
    at_start
    ∷ lit (codes "-")
    ∷ any_of (
        map (λ w. lit (codes w))
          ("delete" ∷ "exec" ∷ "execdir" ∷ "ok" ∷ "okdir" ∷ "fprint" ∷ "fprintf" ∷ "fls" ∷ []))
    ∷ at_end
    ∷ [])

unfoldable pub sed_writes : Text → Bool
sed_writes arg = test sed_flag arg || starts_with (codes "--in-place") arg || test sed_write arg

abbrev git_commands : List Text
git_commands = map codes ("diff" ∷ "show" ∷ "log" ∷ "status" ∷ "grep" ∷ "blame" ∷ [])

abbrev gh_commands : List Text
gh_commands = map codes ("pr:view" ∷ "pr:diff" ∷ "issue:view" ∷ "run:view" ∷ [])

-- An argument in a template string.
abbrev arg_text : Option Text → Text
arg_text arg = or_else arg (codes "undefined")

abbrev in_list : List Text → Option Text → Bool
in_list names none = false
in_list names (some arg) = has names arg

unfoldable pub is_read_only_command : Text → List Text → Bool
is_read_only_command name args =
    if text_eq name (codes "awk")
    then not (any (test awk_pattern) args)
    else if has read_commands name
    then true
    else if text_eq name (codes "sed")
    then not (any sed_writes args)
    else if text_eq name (codes "find")
    then not (any (test find_action) args)
    else if text_eq name (codes "git")
    then in_list git_commands (head? args)
    else if text_eq name (codes "gh")
    then has gh_commands (arg_text (get_elem? args 0) ++ codes ":" ++ arg_text (get_elem? args 1))
    else false

abbrev is_read_only_words : List Text → Bool
is_read_only_words [] = false
is_read_only_words (name ∷ args) = is_read_only_command name (map unquote_arg args)

-- A segment is trimmed and not empty, so that its split at `/\s+/` has no empty piece.
unfoldable pub is_read_only_segment : Text → Bool
is_read_only_segment segment = is_read_only_words (words segment)

abbrev pub are_read_only : Option (List Text) → Bool
are_read_only none = false
are_read_only (some segments) = every is_read_only_segment segments

unfoldable pub is_read_only_bash : Text → Bool
is_read_only_bash command = are_read_only (split_read_segments command)
