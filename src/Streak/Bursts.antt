-- ===== src/Streak/Bursts.antt =====
-- plugins/fusion/scripts/lib/guard/read-streak.mjs, `handleReadStreak`: what the count counts.
use mathlib.Core.Path.{subst}
use claude_code_fusion.Common.{
  ℕ, ◌+◌, ◌≡◌, refl, ap, sym, ◌∙◌, Bool, true, false, ◌||◌, Option, none, some, List, [], ◌∷◌, ◌==◌,
  arith, inl, inr, Bool-cases, if◌then◌else◌, not, All, ltb, ◌-◌,
}
use claude_code_fusion.Streak.Turns.{
  Call, other_event, is_read, is_reset, handle_read_streak, Streak, default_streak, or_default,
  is_new_turn, streak_update, stored, after_read,
}

-- A call of the hook, whether the lock was taken, and the time.
pub record Event : Type 0 where
  pub call : Call
  pub locked : Bool
  pub now : ℕ

abbrev run_event : Option Streak → Event → Option Streak
run_event existing e = (handle_read_streak e.call e.locked e.now existing).0

abbrev pub run_events : Option Streak → List Event → Option Streak
run_events existing [] = existing
run_events existing (e ∷ es) = run_events (run_event existing e) es

-- The call is one that the streak looks at, and the lock is free.
abbrev is_passed : Event → Bool
is_passed e =
    e.call.has_agent_id
    || other_event e.call.hook_event_name
    || not (is_read e.call || is_reset e.call)
    || e.locked

-- A stored streak of no turns has no last read.
abbrev IsClean : Option Streak → Type 0
IsClean none = Unit
IsClean (some s) = s.read_streak_turns ≡ 0 → s.last_read_at ≡ none

run_event_passed :
    (existing : Option Streak) (e : Event) → is_passed e ≡ true → run_event existing e ≡ existing
unfolding handle_read_streak
run_event_passed existing e h = rw (run_event, h) refl

run_event_seen :
    (existing : Option Streak) (e : Event)
    → is_passed e ≡ false
    → run_event existing e ≡ stored existing (streak_update (is_reset e.call) e.now existing)
unfolding handle_read_streak
run_event_seen existing e h = rw (run_event, h) refl

abbrev streak : ℕ → Option ℕ → Streak
streak n last = record { read_streak_turns = n; last_read_at = last }

-- What a reset leaves behind.
after_reset :
    (now : ℕ) (existing : Option Streak)
    → IsClean existing
    → or_default (stored existing (streak_update true now existing)) ≡ default_streak
unfolding streak_update
after_reset now none c = refl
after_reset now (some s) c = elim (Bool-cases (s.read_streak_turns == 0)) [
  | inl y ↦ rw y (empty_streak s (ground arith) (c (ground arith)))
  | inr n ↦ rw n refl
]
  where
    empty_streak :
        (t : Streak) → t.read_streak_turns ≡ 0 → t.last_read_at ≡ none → t ≡ default_streak
    empty_streak t h k = ap (λ n. streak n t.last_read_at) h ∙ ap (streak 0) k

after_read-IsClean :
    (s : Streak) (now : ℕ)
    → IsClean (some s)
    → IsClean (some (after_read s now (is_new_turn s.last_read_at now)))
unfolding is_new_turn
after_read-IsClean s now c z = go s.last_read_at c z
  where
    go :
        (m : Option ℕ)
        → (s.read_streak_turns ≡ 0 → m ≡ none)
        → (after_read s now (is_new_turn m now)).read_streak_turns ≡ 0
        → some now ≡ none
    go none d y = absurd (omega arith)
    go (some last) d y = elim (Bool-cases (is_new_turn (some last) now)) [
      | inl w ↦ absurd (omega (arith, rw w at y))
      | inr n ↦ let e = d (rw n at y) in absurd (cc)
    ]

streak_update-IsClean :
    (reset : Bool) (now : ℕ) (existing : Option Streak)
    → IsClean existing
    → IsClean (stored existing (streak_update reset now existing))
unfolding streak_update
streak_update-IsClean true now none c = tt
streak_update-IsClean true now (some s) c = elim (Bool-cases (s.read_streak_turns == 0)) [
  | inl y ↦ rw (IsClean, stored, y) c
  | inr n ↦ rw (IsClean, stored, n) (λ z. refl)
]
streak_update-IsClean false now none c = after_read-IsClean default_streak now (λ z. refl)
streak_update-IsClean false now (some s) c = after_read-IsClean s now c

-- A state file in which a streak of no turns has no last read is so behind every call.
handle_read_streak-IsClean :
    (existing : Option Streak) (e : Event) → IsClean existing → IsClean (run_event existing e)
handle_read_streak-IsClean existing e c = elim (Bool-cases (is_passed e)) [
  | inl y ↦ subst IsClean (sym (run_event_passed existing e y)) c
  | inr n ↦
      subst IsClean (sym (run_event_seen existing e n))
        (streak_update-IsClean (is_reset e.call) e.now existing c)
]

-- A read starts a turn if it is the first one, or if it is before the read that it follows, or more than
-- 1500 milliseconds behind it.
abbrev starts_turn : Option ℕ → ℕ → Bool
starts_turn none now = true
starts_turn (some last) now = ltb now last || ltb 1500 (now - last)

is_new_turn-starts_turn : (last : Option ℕ) (now : ℕ) → is_new_turn last now ≡ starts_turn last now
unfolding is_new_turn
is_new_turn-starts_turn none now = refl
is_new_turn-starts_turn (some last) now = ground arith

-- The number of turns of the reads at these times, the last one before them at `last`.
abbrev pub bursts : Option ℕ → List ℕ → ℕ
bursts last [] = 0
bursts last (t ∷ ts) = (if starts_turn last t then 1 else 0) + bursts (some t) ts

-- The times of the reads that the streak counts.
abbrev pub read_times : List Event → List ℕ
read_times [] = []
read_times (e ∷ es) = if is_passed e then read_times es else e.now ∷ read_times es

abbrev pub Resets : Event → Type 0
Resets e = (is_passed e ≡ false) × (is_reset e.call ≡ true)

-- The call is passed by, or is a read.
abbrev pub NoReset : Event → Type 0
NoReset e = is_passed e ≡ false → is_reset e.call ≡ false

run_event-after_read :
    (existing : Option Streak) (e : Event)
    → is_passed e ≡ false
    → is_reset e.call ≡ false
    → run_event existing e
      ≡ some (
          after_read
            (or_default existing)
            e.now
            (is_new_turn (or_default existing).last_read_at e.now))
run_event-after_read existing e seen reads =
    run_event_seen existing e seen
    ∙ ap (λ b. stored existing (streak_update b e.now existing)) reads
    ∙ unfold streak_update in refl

after_read_turns :
    (s : Streak) (now n : ℕ) (new : Bool)
    → (after_read s now new).read_streak_turns + n
      ≡ s.read_streak_turns + ((if new then 1 else 0) + n)
after_read_turns s now n true = omega arith
after_read_turns s now n false = omega arith

-- Each call is passed by, or read and counted.
turns-NoReset :
    (existing : Option Streak) (es : List Event)
    → All NoReset es
    → (or_default (run_events existing es)).read_streak_turns
      ≡ (or_default existing).read_streak_turns
        + bursts (or_default existing).last_read_at (read_times es)
turns-NoReset existing [] a = omega arith
turns-NoReset existing (e ∷ es) (reads, a) = elim (Bool-cases (is_passed e)) [
  | inl y ↦ rw (run_events, y, run_event_passed existing e y) (turns-NoReset existing es a)
  | inr n ↦
      turns-NoReset (run_event existing e) es a
      ∙ ap
          (λ m.
            (or_default m).read_streak_turns + bursts (or_default m).last_read_at (read_times es))
          (run_event-after_read existing e n (reads n))
      ∙ after_read_turns (or_default existing) e.now (bursts (some e.now) (read_times es))
          (is_new_turn (or_default existing).last_read_at e.now)
      ∙ counted n
]
  where
    counted :
        is_passed e ≡ false
        → (or_default existing).read_streak_turns
            + ((if is_new_turn (or_default existing).last_read_at e.now then 1 else 0)
                + bursts (some e.now) (read_times es))
          ≡ (or_default existing).read_streak_turns
            + bursts (or_default existing).last_read_at (read_times (e ∷ es))
    counted n = rw (n, is_new_turn-starts_turn (or_default existing).last_read_at e.now) refl

run_events-IsClean :
    (existing : Option Streak) (es : List Event)
    → IsClean existing
    → IsClean (run_events existing es)
run_events-IsClean existing [] c = c
run_events-IsClean existing (e ∷ es) c =
    run_events-IsClean (run_event existing e) es (handle_read_streak-IsClean existing e c)

-- From no state file on, behind any calls and then one that ends the streak, and behind more calls of
-- which none ends it, the count is the number of turns of the reads since. A call that the streak does not
-- look at, or that finds the lock taken, may stand anywhere and counts for nothing. A read starts a turn if
-- it is the first one, or not within 1500 milliseconds behind the one before it.
pub run_events-bursts :
    (before : List Event) (e : Event) (es : List Event)
    → Resets e
    → All NoReset es
    → (or_default (run_events (run_events none before) (e ∷ es))).read_streak_turns
      ≡ bursts none (read_times es)
run_events-bursts before e es (seen, resets) a =
    turns-NoReset (run_event existing e) es a
    ∙ ap (λ s. s.read_streak_turns + bursts s.last_read_at (read_times es)) reset
    ∙ omega arith
  where
    existing : Option Streak
    existing = run_events none before

    reset : or_default (run_event existing e) ≡ default_streak
    reset =
        ap or_default (
          run_event_seen existing e seen
          ∙ ap (λ b. stored existing (streak_update b e.now existing)) resets)
        ∙ after_reset e.now existing (run_events-IsClean none before tt)
