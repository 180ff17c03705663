-- ===== src/Guard/Launches.antt =====
-- plugins/fusion/scripts/lib/guard/dispatch-events.mjs: which launch a confirmation is of, and the time of
-- the last confirmed dispatch.
use claude_code_fusion.Common.{
  ℕ, ◌≤◌, ◌≡◌, refl, ap, Bool, true, false, ◌||◌, ◌∙◌, Option, none, some, List, [], ◌∷◌, ◌++◌,
  arith, any, ◌==◌,
}
use claude_code_fusion.Common.Text.{Text}
use claude_code_fusion.Guard.State.{LogEntry}
use claude_code_fusion.Guard.Dispatch.{
  Dispatch, by_id, by_lane, confirm_entry, confirm_last, confirm_by_id, or_found, confirm_launched,
  confirmed_at,
}

||-eq-false : (a b : Bool) → (a || b) ≡ false → (a ≡ false) × (b ≡ false)
||-eq-false a b h = ground arith

confirm_last-none :
    (d : Dispatch) (p : LogEntry → Bool) (log : List LogEntry)
    → any p log ≡ false
    → confirm_last d p log ≡ none
unfolding confirm_last any
confirm_last-none d p [] n = refl
confirm_last-none d p (e ∷ log) n =
    let (here, more) = ||-eq-false (p e) (any p log) n in
    rw (confirm_last-none d p log more, here) refl

-- The last entry that passes the test is confirmed where it stands.
confirm_last-append :
    (d : Dispatch) (p : LogEntry → Bool) (front back : List LogEntry) (e : LogEntry)
    → p e ≡ true
    → any p back ≡ false
    → confirm_last d p (front ++ e ∷ back)
      ≡ some (confirm_entry d e, front ++ confirm_entry d e ∷ back)
unfolding confirm_last
confirm_last-append d p [] back e y n = rw (confirm_last-none d p back n, y) refl
confirm_last-append d p (f ∷ front) back e y n = rw (confirm_last-append d p front back e y n) refl

-- A dispatch confirms its own launch: the last one of the log under its tool use, whatever other launches
-- of its lane the log holds.
pub confirm_launched-append :
    (d : Dispatch) (id : Text) (front back : List LogEntry) (e : LogEntry)
    → d.tool_use_id ≡ some id
    → by_id id e ≡ true
    → any (by_id id) back ≡ false
    → confirm_launched d (front ++ e ∷ back)
      ≡ some (confirm_entry d e, front ++ confirm_entry d e ∷ back)
unfolding confirm_launched
confirm_launched-append d id front back e own y n =
    ap
      (λ i.
        or_found (confirm_by_id d i (front ++ e ∷ back))
          (confirm_last d (by_lane d.lane) (front ++ e ∷ back)))
      own
    ∙ ap (λ f. or_found f (confirm_last d (by_lane d.lane) (front ++ e ∷ back)))
        (confirm_last-append d (by_id id) front back e y n)

-- `t` is no later than the time, if there is one.
abbrev pub IsBy : ℕ → Option ℕ → Type 0
IsBy t none = ⊥
IsBy t (some u) = t ≤ u

abbrev is_time : ℕ → Option ℕ → Bool
is_time t none = false
is_time t (some u) = u == t

abbrev pub is_confirmed_at : ℕ → LogEntry → Bool
is_confirmed_at t e = is_time t (confirmed_at e.phase e.at)
