-- ===== src/Streak/Harmless.antt =====
-- plugins/fusion/scripts/lib/guard/read-streak.mjs, `splitReadSegments`: what a command that is
-- split does not hold.
use claude_code_fusion.Common.{
  ℕ, ◌≡◌, refl, true, false, ◌||◌, Option, none, some, List, [], ◌∷◌, arith, inl, inr, Bool-cases,
  Option-cases, is_some,
}
use claude_code_fusion.Common.Text.{Text, is_blank}
use claude_code_fusion.Streak.Segments.{
  Reader, read_unit, end_segments, read_from, unread, split_read_segments,
}
use claude_code_fusion.Streak.Quoting.{Harmless}
use claude_code_fusion.Streak.Steps.{Ready, unit-Step}
use claude_code_fusion.Streak.Commands.{are_read_only, is_read_only_bash}

ended :
    (s : Reader) (segments : List Text)
    → end_segments s ≡ some segments
    → (s.quote ≡ none) × (s.escaped ≡ false)
unfolding end_segments
ended s segments h = elim (Bool-cases (is_some s.quote || s.escaped)) [
  | inl y ↦ absurd (cc (rw y at h))
  | inr n ↦ (no_quote s.quote (ground arith), ground arith)
]
  where
    no_quote : (q : Option ℕ) → is_some q ≡ false → q ≡ none
    no_quote none k = refl
    no_quote (some q) k = absurd (cc)

read_from-Harmless :
    (s : Reader) (t : Text) (segments : List Text)
    → read_from s t ≡ some segments
    → Ready s.skip s.quote s.escaped t
    → Harmless s.quote s.escaped t
unfolding read_from
read_from-Harmless s [] segments h a = ended s segments h
read_from-Harmless s (c ∷ rest) segments h a = elim (Option-cases (read_unit c rest s)) [
  | inl n ↦ absurd (cc (rw (read_from, n) at h))
  | inr (s', e) ↦
      let step = unit-Step c rest s s' e a in
      (
        step.harmless,
        rw (← step.quote_is, ← step.escaped_is)
            (read_from-Harmless s' rest segments (rw (read_from, e) at h) step.ready),
      )
]

split_read_segments-Harmless :
    (command : Text) (segments : List Text)
    → split_read_segments command ≡ some segments
    → Harmless none false command
unfolding split_read_segments
split_read_segments-Harmless command segments h = elim (Bool-cases (is_blank command)) [
  | inl y ↦ absurd (cc (rw y at h))
  | inr n ↦ read_from-Harmless unread command segments (rw n at h) tt
]

are_read_only-Harmless :
    (command : Text)
    → are_read_only (split_read_segments command) ≡ true
    → Harmless none false command
are_read_only-Harmless command h = elim (Option-cases (split_read_segments command)) [
  | inl n ↦ absurd (cc (rw n at h))
  | inr (segments, e) ↦ split_read_segments-Harmless command segments e
]

-- A command that counts as read only has, outside of quotes, no backtick, no `$(`, no line break and no
-- `||`, and a `>` only where the target is /dev/null or a descriptor; inside double quotes it has no backtick
-- and no `$(`; and it leaves no quote and no escape open. The quotes are the backslash, the single and the
-- double ones; what only bash reads otherwise, as `<(` and `$'`, is not looked at.
pub is_read_only_bash-Harmless :
    (command : Text) → is_read_only_bash command ≡ true → Harmless none false command
unfolding is_read_only_bash
is_read_only_bash-Harmless = are_read_only-Harmless
