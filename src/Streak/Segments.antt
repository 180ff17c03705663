-- ===== src/Streak/Segments.antt =====
-- plugins/fusion/scripts/lib/guard/read-streak.mjs, `splitReadSegments`: a command is cut at its
-- separators, and given up where it could write or start another command.
use claude_code_fusion.Common.{
  ℕ, zero, suc, Bool, true, false, not, ◌&&◌, ◌||◌, Option, none, some, List, [], ◌∷◌, ◌++◌, ◌==◌,
  if◌then◌else◌, drop, is_some,
}
use claude_code_fusion.Common.Text.{Text, codes, is_space, starts_with, trim, is_empty, is_blank}
use claude_code_fusion.Common.Regex.{alt, at_start, at_end, space, lit, then_all, test}

-- The loop's variables; `skip` counts the units by which a round advanced the index further.
pub record Reader : Type 0 where
  pub segments : List Text
  pub segment : Text
  pub quote : Option ℕ
  pub escaped : Bool
  pub skip : ℕ

abbrev pub next_is : ℕ → Text → Bool
next_is c [] = false
next_is c (d ∷ rest) = d == c

abbrev pub ends_word : Text → Bool
ends_word [] = true
ends_word (c ∷ rest) = is_space c

-- `/^(?:\/dev\/null|&1)(?=\s|$)/` on what follows `>`: the target.
unfoldable pub redirect_target : Text → Option Text
redirect_target rest =
    if starts_with (codes "/dev/null") rest && ends_word (drop 9 rest)
    then some (codes "/dev/null")
    else if starts_with (codes "&1") rest && ends_word (drop 2 rest)
    then some (codes "&1")
    else none

-- `/(?:^|\s)2$/`.
unfoldable pub ends_in_two : Text → Bool
ends_in_two segment = test (then_all (alt at_start space ∷ lit (codes "2") ∷ at_end ∷ [])) segment

abbrev pub target_length : Text → ℕ
target_length [] = 0
target_length (c ∷ cs) = suc (target_length cs)

abbrev add_units : Text → Reader → Reader
add_units units s = record s { segment = s.segment ++ units }

-- The units for which the command is given up.
unfoldable pub gives_up : ℕ → Text → Bool
gives_up c rest =
    c == b'>'
    || c == b'`'
    || c == b'\n'
    || c == b'\r'
    || (c == b'$' && next_is b'(' rest)
    || (c == b'&' && not (next_is b'&' rest))
    || (c == b'|' && next_is b'|' rest)

unfoldable pub is_separator : ℕ → Text → Bool
is_separator c rest = c == b';' || c == b'|' || (c == b'&' && next_is b'&' rest)

abbrev pub cut_segment : ℕ → Reader → Option Reader
cut_segment c s =
    if is_empty (trim s.segment)
    then none
    else some (record s {
      segments = s.segments ++ trim s.segment ∷ [];
      segment = [];
      skip = if c == b'&' then 1 else 0;
    })

abbrev pub read_plain : ℕ → Text → Reader → Option Reader
read_plain c rest s =
    if gives_up c rest
    then none
    else if is_separator c rest
    then cut_segment c s
    else some (add_units (c ∷ []) s)

abbrev pub read_redirect : ℕ → Text → Reader → Option Text → Option Reader
read_redirect c rest s none = read_plain c rest s
read_redirect c rest s (some target) =
    some (record (add_units (c ∷ target) s) { skip = target_length target })

abbrev pub redirect_of : ℕ → Text → Text → Option Text
redirect_of c rest segment = if c == b'>' && ends_in_two segment then redirect_target rest else none

abbrev pub read_open : ℕ → Text → Reader → Option Reader
read_open c rest s =
    if c == b'\'' || c == b'"'
    then some (record (add_units (c ∷ []) s) { quote = some c })
    else read_redirect c rest s (redirect_of c rest s.segment)

abbrev pub read_quoted : ℕ → Text → Reader → ℕ → Option Reader
read_quoted c rest s q =
    if q == b'"' && (c == b'`' || (c == b'$' && next_is b'(' rest))
    then none
    else if c == q
    then some (record (add_units (c ∷ []) s) { quote = none })
    else some (add_units (c ∷ []) s)

abbrev pub read_by_quote : ℕ → Text → Reader → Option ℕ → Option Reader
read_by_quote c rest s none = read_open c rest s
read_by_quote c rest s (some q) = read_quoted c rest s q

abbrev pub in_single : Option ℕ → Bool
in_single none = false
in_single (some q) = q == b'\''

abbrev pub read_here : ℕ → Text → Reader → Option Reader
read_here c rest s =
    if s.escaped
    then some (record (add_units (c ∷ []) s) { escaped = false })
    else if c == b'\\' && not (in_single s.quote)
    then some (record (add_units (c ∷ []) s) { escaped = true })
    else read_by_quote c rest s s.quote

abbrev pub read_skipped : ℕ → Text → Reader → ℕ → Option Reader
read_skipped c rest s zero = read_here c rest s
read_skipped c rest s (suc n) = some (record s { skip = n })

-- One round of the loop.
unfoldable pub read_unit : ℕ → Text → Reader → Option Reader
read_unit c rest s = read_skipped c rest s s.skip

unfoldable pub end_segments : Reader → Option (List Text)
end_segments s =
    if is_some s.quote || s.escaped || is_empty (trim s.segment)
    then none
    else some (s.segments ++ trim s.segment ∷ [])

unfoldable pub read_from : Reader → Text → Option (List Text)
read_from s [] = end_segments s
read_from s (c ∷ rest) = elim (read_unit c rest s) [ none ↦ none | some s' ↦ read_from s' rest ]

abbrev pub unread : Reader
unread = record { segments = []; segment = []; quote = none; escaped = false; skip = 0 }

unfoldable pub split_read_segments : Text → Option (List Text)
split_read_segments command = if is_blank command then none else read_from unread command
