-- ===== src/Command/Status.antt =====
-- plugins/fusion/scripts/lib/verification-command.mjs: an observable command shows by its exit status that
-- the last verification succeeded. The status is that of the shell in Command/Shell.
use mathlib.Core.Path.{subst}
use claude_code_fusion.Common.{
  ℕ, ◌≡◌, refl, Bool, true, false, ◌&&◌, ◌||◌, not, Option, none, some, List, [], ◌∷◌, ◌++◌, arith,
  ◌==◌, inl, inr, if◌then◌else◌, Bool-cases, length, &&-eq-true, All, ltb, head?, false-ne-true,
}
use claude_code_fusion.Common.Text.{Text, trim, is_empty}
use claude_code_fusion.Command.Segments.{
  Separator, and_then, or_else_run, pipe, semicolon, newline, return, Segment, command_segments,
}
use claude_code_fusion.Command.Recognize.{
  Tail, all_pass, is_and, is_pipe, is_plain, separator_of, last_match, pair_tail, pipefail_from,
  pipefail_behind, plain_to, verification_command, is_verification_segment, turns_on, turns_off,
}
use claude_code_fusion.Command.Shell.{Shell, behind, option_behind, step, run_from, run}

-- What stands in front of a command that a plain list of commands leads to.
abbrev is_front : Option Separator → Bool
is_front none = true
is_front (some m) = is_plain (some m)

front_plain : (m : Option Separator) → is_plain m ≡ true → is_front m ≡ true
front_plain none h = refl
front_plain (some m) h = h

front_pipe : (m : Option Separator) → is_front m ≡ true → is_pipe m ≡ false
front_pipe none h = refl
front_pipe (some and_then) h = refl
front_pipe (some or_else_run) h = refl
front_pipe (some pipe) h = absurd (false-ne-true h)
front_pipe (some semicolon) h = refl
front_pipe (some newline) h = refl
front_pipe (some return) h = refl

-- The source's rule for the option gives true only where the shell's does.
option_rule :
    (on off active before after option p plain : Bool)
    → (p ≡ true → option ≡ true)
    → (plain ≡ true → before ≡ false)
    → (plain ≡ true → active ≡ true)
    → (if on && not after && plain then true else if off then false else p) ≡ true
    → (if active && (not before && not after)
        then if on then true else if off then false else option
        else option)
      ≡ true
option_rule on off active before after option p plain h k a e = ground arith

module _ (exit_of : Text → ℕ) where
  front_active :
      (m : Option Separator) (c : Text) (s : Shell)
      → is_front m ≡ true
      → s.status ≡ 0
      → (behind exit_of m c s).active ≡ true
  front_active none c s h z = refl
  front_active (some and_then) c s h z = ground arith
  front_active (some or_else_run) c s h z = absurd (false-ne-true h)
  front_active (some pipe) c s h z = absurd (false-ne-true h)
  front_active (some semicolon) c s h z = refl
  front_active (some newline) c s h z = refl
  front_active (some return) c s h z = refl

  front_status :
      (m : Option Separator) (c : Text) (s : Shell)
      → is_front m ≡ true
      → s.status ≡ 0
      → exit_of c ≡ 0
      → (behind exit_of m c s).status ≡ 0
  front_status none c s h z e = e
  front_status (some and_then) c s h z e = ground arith
  front_status (some or_else_run) c s h z e = absurd (false-ne-true h)
  front_status (some pipe) c s h z e = absurd (false-ne-true h)
  front_status (some semicolon) c s h z e = e
  front_status (some newline) c s h z e = e
  front_status (some return) c s h z e = e

  option_sound :
      (p plain : Bool) (m : Option Separator) (c : Segment) (next : Option Segment) (s : Shell)
      → (p ≡ true → s.pipefail ≡ true)
      → (plain ≡ true → is_front m ≡ true)
      → (plain ≡ true → (behind exit_of m c.command s).active ≡ true)
      → pipefail_behind p plain c next ≡ true
      → option_behind exit_of m c.command (separator_of next) s ≡ true
  unfolding option_behind
  option_sound p plain m c next s h front active =
      option_rule (turns_on c.command) (turns_off c.command) (behind exit_of m c.command s).active
        (is_pipe m) (is_pipe (separator_of next)) s.pipefail p plain h (λ y. front_pipe m (front y))
        active

  -- Where the source believes the option on, it is; and a plain list so far has succeeded.
  record Front (p plain : Bool) (m : Option Separator) (s : Shell) : Type 0 where
    option : p ≡ true → s.pipefail ≡ true
    front : plain ≡ true → is_front m ≡ true
    succeeds : plain ≡ true → s.status ≡ 0

  next_front :
      (plain : Bool) (next : Option Segment)
      → plain_to plain next ≡ true
      → (plain ≡ true) × (is_front (separator_of next) ≡ true)
  next_front plain none h = (h, refl)
  next_front plain (some c) h =
      let (a, b) = &&-eq-true {a = plain} h in (a, front_plain c.separator b)

  step-Front :
      (p plain : Bool) (m : Option Separator) (c : Segment) (next : Option Segment) (s : Shell)
      → exit_of c.command ≡ 0
      → Front p plain m s
      → Front
          (pipefail_behind p plain c next)
          (plain_to plain next)
          (separator_of next)
          (step exit_of m c.command (separator_of next) s)
  step-Front p plain m c next s e f = record {
    option =
        option_sound p plain m c next s f.option f.front
          (λ y. front_active m c.command s (f.front y) (f.succeeds y));
    front = λ y. (next_front plain next y).1;
    succeeds = λ y.
        let (q, _) = next_front plain next y in
        front_status m c.command s (f.front q) (f.succeeds q) e;
  }

  -- A command that is run and fails leaves a status that is not 0, also at the end of a pipeline.
  ran_status :
      (m : Option Separator) (c : Text) (s : Shell)
      → (behind exit_of m c s).active ≡ true
      → (behind exit_of m c s).status ≡ 0
      → exit_of c ≡ 0
  ran_status none c s a z = z
  ran_status (some and_then) c s a z = ground arith
  ran_status (some or_else_run) c s a z = ground arith
  ran_status (some pipe) c s a z = ground arith
  ran_status (some semicolon) c s a z = z
  ran_status (some newline) c s a z = z
  ran_status (some return) c s a z = z

  -- A command that is reached by `&&`, or by a pipe under `pipefail`, hides no failure before it.
  passed_status :
      (m : Option Separator) (c : Text) (s : Shell) (o : Bool)
      → (is_and m || (is_pipe m && o)) ≡ true
      → (s.active ≡ true → o ≡ true → s.pipefail ≡ true)
      → (behind exit_of m c s).status ≡ 0
      → s.status ≡ 0
  passed_status none c s o h f z = absurd (false-ne-true h)
  passed_status (some and_then) c s o h f z = ground arith
  passed_status (some or_else_run) c s o h f z = absurd (false-ne-true h)
  passed_status (some pipe) c s o h f z = elim (Bool-cases s.active) [
    | inl y ↦ let on = f y h in ground arith
    | inr n ↦ ground arith
  ]
  passed_status (some semicolon) c s o h f z = absurd (false-ne-true h)
  passed_status (some newline) c s o h f z = absurd (false-ne-true h)
  passed_status (some return) c s o h f z = absurd (false-ne-true h)

  passed_option :
      (m : Option Separator) (c : Text) (after : Option Separator) (s : Shell) (o : Bool)
      → (is_and m || (is_pipe m && o)) ≡ true
      → (s.active ≡ true → o ≡ true → s.pipefail ≡ true)
      → (s.status ≡ 0 → ⊥)
      → (behind exit_of m c s).active ≡ true
      → option_behind exit_of m c after s ≡ true
  unfolding option_behind
  passed_option none c after s o h f bad a = absurd (false-ne-true h)
  passed_option (some and_then) c after s o h f bad a = absurd (ground (arith, bad))
  passed_option (some or_else_run) c after s o h f bad a = absurd (false-ne-true h)
  passed_option (some pipe) c after s o h f bad a = elim (Bool-cases s.active) [
    | inl y ↦ let on = f y h in rw y on
    | inr n ↦ absurd (ground arith)
  ]
  passed_option (some semicolon) c after s o h f bad a = absurd (false-ne-true h)
  passed_option (some newline) c after s o h f bad a = absurd (false-ne-true h)
  passed_option (some return) c after s o h f bad a = absurd (false-ne-true h)

  -- A failure in front of commands that hide none is there at the end.
  tail_fails :
      (rest : List Segment) (o plain : Bool) (s : Shell)
      → (s.status ≡ 0 → ⊥)
      → (s.active ≡ true → o ≡ true → s.pipefail ≡ true)
      → all_pass (pair_tail o rest (pipefail_from o plain rest)) ≡ true
      → (run_from exit_of (separator_of (head? rest)) s rest).status ≡ 0
      → ⊥
  unfolding run_from all_pass pipefail_from
  tail_fails [] o plain s bad f h z = bad z
  tail_fails (c ∷ rest) o plain s bad f h z =
      let (one, more) = &&-eq-true {a = is_and c.separator || (is_pipe c.separator && o)} h in
      let after = separator_of (head? rest) in
      tail_fails rest (pipefail_behind o plain c (head? rest)) (plain_to plain (head? rest))
        (step exit_of c.separator c.command after s)
        (λ e. bad (passed_status c.separator c.command s o one f e))
        (λ a _. passed_option c.separator c.command after s o one f bad a) more z

abbrev NoMatch : (Text → Bool) → List Segment → Type 0
NoMatch matches = All (λ s. matches s.command ≡ false)

module _ (matches : Text → Bool) where
  last_match-none :
      (rest : List Segment) (options : List Bool)
      → NoMatch matches rest
      → last_match matches rest options ≡ none
  unfolding last_match
  last_match-none [] options h = refl
  last_match-none (c ∷ rest) [] h = refl
  last_match-none (c ∷ rest) (o ∷ options) h = rw (last_match-none rest options h.1, h.0) refl

  last_match-here :
      (c : Segment) (rest : List Segment) (o : Bool) (options : List Bool)
      → matches c.command ≡ true
      → NoMatch matches rest
      → last_match matches (c ∷ rest) (o ∷ options) ≡ some (pair_tail o rest options)
  unfolding last_match
  last_match-here c rest o options h k = rw (last_match-none rest options k, h) refl

  -- The match stands behind every longer list too.
  last_match-later :
      (c : Segment) (segments : List Segment) (o : Bool) (options : List Bool) (t : Tail)
      → last_match matches segments options ≡ some t
      → last_match matches (c ∷ segments) (o ∷ options) ≡ some t
  unfolding last_match
  last_match-later c segments o options t h = rw h refl

  -- What follows the last match, with the options that the source finds.
  tail_at : List Segment → Segment → List Segment → Bool → Bool → Tail
  unfolding pipefail_from
  tail_at [] c rest p plain =
      let now = pipefail_behind p plain c (head? rest) in
      pair_tail now rest (pipefail_from now (plain_to plain (head? rest)) rest)
  tail_at (b ∷ before) c rest p plain =
      tail_at before c rest (pipefail_behind p plain b (head? (before ++ c ∷ rest)))
        (plain_to plain (head? (before ++ c ∷ rest)))

  last_match-tail_at :
      (before : List Segment) (c : Segment) (rest : List Segment) (p plain : Bool)
      → matches c.command ≡ true
      → NoMatch matches rest
      → last_match matches (before ++ c ∷ rest) (pipefail_from p plain (before ++ c ∷ rest))
        ≡ some (tail_at before c rest p plain)
  unfolding pipefail_from tail_at
  last_match-tail_at [] c rest p plain h k = last_match-here c rest _ _ h k
  last_match-tail_at (b ∷ before) c rest p plain h k =
      last_match-later b (before ++ c ∷ rest) _ _ _ (last_match-tail_at before c rest _ _ h k)

  same_head :
      (before : List Segment) (c : Segment) (rest : List Segment)
      → head? (before ++ c ∷ []) ≡ head? (before ++ c ∷ rest)
  same_head [] c rest = refl
  same_head (b ∷ before) c rest = refl

  module _ (exit_of : Text → ℕ) where
    shown :
        (before : List Segment) (c : Segment) (rest : List Segment) (p plain : Bool)
        (m : Option Separator) (s : Shell)
        → Front exit_of p plain m s
        → All (λ b. exit_of b.command ≡ 0) before
        → all_pass (tail_at before c rest p plain) ≡ true
        → (run_from exit_of m s (before ++ c ∷ [])).active ≡ true
        → (run_from exit_of m s (before ++ c ∷ rest)).status ≡ 0
        → exit_of c.command ≡ 0
    unfolding run_from tail_at
    shown [] c rest p plain m s f zeros h a z = elim (Bool-cases (exit_of c.command == 0)) [
      | inl y ↦ ground arith
      | inr n ↦ absurd (
          tail_fails exit_of rest (pipefail_behind p plain c (head? rest)) _
            (step exit_of m c.command (separator_of (head? rest)) s)
            (λ e. let e' = ran_status exit_of m c.command s a e in ground arith)
            (λ _ o. option_sound exit_of p plain m c (head? rest) s f.option f.front (λ _. a) o) h
            z)
    ]
    shown (b ∷ before) c rest p plain m s f (zero, zeros) h a z =
        let next = head? (before ++ c ∷ rest) in
        shown before c rest _ _ (separator_of next) (step exit_of m b.command (separator_of next) s)
          (step-Front exit_of p plain m b next s zero f) zeros h
          (subst
            (λ (x : Option Segment).
              (run_from exit_of (separator_of x) (step exit_of m b.command (separator_of x) s)
                (before ++ c ∷ [])).active
              ≡ true)
            (same_head before c rest) a)
          z

-- Of an observable command, let a segment match as a verification and none behind it. If the commands in
-- front of it exit with 0, and it is run, then the command line exits with 0 only if that verification
-- does. The shell has `pipefail` on where it has run a `set` for it, and not in a pipeline.
pub verification_command-shows :
    (pattern : Option (Text → Bool)) (command : Text) (exit_of : Text → ℕ) (before : List Segment)
    (c : Segment) (rest : List Segment)
    → (verification_command pattern command).observable ≡ true
    → command_segments (trim command) ≡ before ++ c ∷ rest
    → is_verification_segment pattern c.command ≡ true
    → NoMatch (is_verification_segment pattern) rest
    → All (λ b. exit_of b.command ≡ 0) before
    → (run exit_of (before ++ c ∷ [])).active ≡ true
    → (run exit_of (command_segments (trim command))).status ≡ 0
    → exit_of c.command ≡ 0
unfolding verification_command
verification_command-shows pattern command exit_of before c rest h splits fits last zeros a z =
    elim (Bool-cases (is_empty (trim command) || ltb 16384 (length (trim command)))) [
      | inl y ↦ absurd (cc (rw y at h))
      | inr n ↦
          shown matches exit_of before c rest false true none _
            (record {
              option = λ y. absurd (false-ne-true y);
              front = λ _. refl;
              succeeds = λ _. refl;
            })
            zeros
            (rw (splits, last_match-tail_at matches before c rest false true fits last) at
              (rw n at h))
            a (rw splits at z)
    ]
  where
    matches : Text → Bool
    matches = is_verification_segment pattern
