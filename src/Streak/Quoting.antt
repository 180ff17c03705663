-- ===== src/Streak/Quoting.antt =====
-- plugins/fusion/scripts/lib/guard/read-streak.mjs, `splitReadSegments`: the backslash, the
-- single and the double quotes of a shell, and what is harmless under them. The `$'` quotes and the process
-- substitutions `<(` of bash are not among them.
use claude_code_fusion.Common.{
  ℕ, ◌≡◌, Bool, true, false, not, ◌&&◌, ◌||◌, Option, none, some, [], ◌∷◌, ◌==◌, if◌then◌else◌,
  is_some,
}
use claude_code_fusion.Common.Text.{Text}
use claude_code_fusion.Streak.Segments.{next_is, redirect_target, in_single}

-- The open quote behind a unit, and whether the unit before was a backslash that escapes.
abbrev quote_behind : ℕ → Option ℕ → Option ℕ
quote_behind c none = if c == b'\'' || c == b'"' then some c else none
quote_behind c (some q) = if c == q then none else some q

abbrev pub is_escape : ℕ → Option ℕ → Bool
is_escape c quote = c == b'\\' && not (in_single quote)

abbrev pub quote_after : ℕ → Option ℕ → Bool → Option ℕ
quote_after c quote true = quote
quote_after c quote false = if is_escape c quote then quote else quote_behind c quote

abbrev pub escaped_after : ℕ → Option ℕ → Bool → Bool
escaped_after c quote true = false
escaped_after c quote false = is_escape c quote

-- The unit starts a command substitution, by a backtick or by `$(`.
abbrev substitutes : ℕ → Text → Bool
substitutes c rest = c == b'`' || (c == b'$' && next_is b'(' rest)

-- A unit outside quotes starts no substitution, no line and no alternative, and redirects only to
-- /dev/null or to a descriptor; inside double quotes it starts no substitution.
abbrev pub harmless_by_quote : ℕ → Text → Option ℕ → Bool
harmless_by_quote c rest none =
    not (substitutes c rest)
    && not (c == b'\n')
    && not (c == b'\r')
    && not (c == b'|' && next_is b'|' rest)
    && (not (c == b'>') || is_some (redirect_target rest))
harmless_by_quote c rest (some q) = not (q == b'"') || not (substitutes c rest)

abbrev pub is_harmless : ℕ → Text → Option ℕ → Bool → Bool
is_harmless c rest quote true = true
is_harmless c rest quote false = is_escape c quote || harmless_by_quote c rest quote

-- Each unit is harmless under the quotes before it, and no quote or escape is open at the end.
abbrev pub Harmless : Option ℕ → Bool → Text → Type 0
Harmless quote escaped [] = (quote ≡ none) × (escaped ≡ false)
Harmless quote escaped (c ∷ rest) =
    (is_harmless c rest quote escaped ≡ true)
    × Harmless (quote_after c quote escaped) (escaped_after c quote escaped) rest
