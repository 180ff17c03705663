-- ===== src/Streak/Tests.antt =====
-- Runs of plugins/fusion/scripts/lib/guard/read-streak.mjs, and the theorems at such inputs.
use claude_code_fusion.Common.{
  ℕ, ◌≡◌, refl, true, false, none, some, List, [], ◌∷◌, any, every, All,
}
use claude_code_fusion.Common.Text.{
  codes, text_eq, has, starts_with, trim, trim_start, is_blank, is_space, words_onto,
}
use claude_code_fusion.Common.Regex.{regex_code}
use claude_code_fusion.Streak.Segments.{
  redirect_target, ends_in_two, gives_up, is_separator, read_unit, end_segments, read_from,
  split_read_segments,
}
use claude_code_fusion.Streak.Commands.{
  drop_last_quote, unquote_arg, sed_writes, is_read_only_command, is_read_only_segment,
  is_read_only_bash,
}
use claude_code_fusion.Streak.Turns.{
  is_read, is_reset, is_doubled, is_advisory_turn, is_new_turn, streak_update, handle_read_streak,
  or_default,
}
use claude_code_fusion.Streak.Quoting.{Harmless}
use claude_code_fusion.Streak.Harmless.{is_read_only_bash-Harmless}
use claude_code_fusion.Streak.Bursts.{
  Event, run_events, bursts, read_times, run_events-bursts, Resets, NoReset,
}

-- The functions that a run computes with.
streak_code : Unit {0}
unfolding regex_code text_eq has starts_with trim trim_start is_blank is_space words_onto any every
    redirect_target ends_in_two gives_up is_separator read_unit end_segments read_from
    split_read_segments drop_last_quote unquote_arg sed_writes is_read_only_command
    is_read_only_segment is_read_only_bash is_read is_reset is_doubled is_advisory_turn is_new_turn
    streak_update handle_read_streak
streak_code = tt

cut :
    split_read_segments (codes "cat 'a;b' 2>&1 | wc -l && ls")
    ≡ some (codes "cat 'a;b' 2>&1" ∷ codes "wc -l" ∷ codes "ls" ∷ [])
unfolding streak_code
cut = refl

given_up : split_read_segments (codes "cat a > b") ≡ none
unfolding streak_code
given_up = refl

reading : is_read_only_bash (codes "git log 2>/dev/null | head") ≡ true
unfolding streak_code
reading = refl

writing : is_read_only_bash (codes "sed -i s/a/b/ f") ≡ false
unfolding streak_code
writing = refl

-- The pattern of `find` has no `-fprint0`, which writes a file too.
find_writes : is_read_only_bash (codes "find . -fprint0 f") ≡ true
unfolding streak_code
find_writes = refl

-- What only bash reads otherwise: a process substitution runs a command, and the quotes of `$'` end later,
-- so that a file is written.
process_substituted : is_read_only_bash (codes "cat <(rm -rf x)") ≡ true
unfolding streak_code
process_substituted = refl

quoted_by_dollar : is_read_only_bash (codes "cat $'\\'' > f #'") ≡ true
unfolding streak_code
quoted_by_dollar = refl

is_read_only_bash-Harmless_example : Harmless none false (codes "git log 2>/dev/null | head")
is_read_only_bash-Harmless_example =
    is_read_only_bash-Harmless (codes "git log 2>/dev/null | head") reading

abbrev read_at : ℕ → Event
read_at now = record {
  call = record {
    has_agent_id = false;
    hook_event_name = some (codes "PreToolUse");
    tool_name = codes "Grep";
    command = none;
  };
  locked = false;
  now = now;
}

abbrev edit_at : ℕ → Event
edit_at now = record {
  call = record {
    has_agent_id = false;
    hook_event_name = none;
    tool_name = codes "Edit";
    command = none;
  };
  locked = false;
  now = now;
}

abbrev three_turns : List Event
three_turns = read_at 10 ∷ read_at 2000 ∷ read_at 4000 ∷ []

-- A read that finds the lock taken counts for nothing.
abbrev reads : List Event
reads = read_at 4100 ∷ record (read_at 4200) { locked = true } ∷ read_at 5600 ∷ read_at 7101 ∷ []

edit-Resets : Resets (edit_at 4050)
unfolding streak_code
edit-Resets = (refl, refl)

reads-All : All NoReset reads
unfolding streak_code
reads-All = (λ h. refl, (λ h. refl, (λ h. refl, (λ h. refl, tt))))

run_events-bursts_example :
    (or_default (run_events (run_events none three_turns) (edit_at 4050 ∷ reads))).read_streak_turns
    ≡ bursts none (read_times reads)
run_events-bursts_example = run_events-bursts three_turns (edit_at 4050) reads edit-Resets reads-All

two_bursts : bursts none (read_times reads) ≡ 2
unfolding streak_code
two_bursts = refl
