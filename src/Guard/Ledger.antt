-- ===== src/Guard/Ledger.antt =====
-- plugins/fusion/scripts/lib/guard/state.mjs and dispatch-events.mjs: the length of the log of
-- dispatches.
use mathlib.Core.Path.{subst}
use claude_code_fusion.Common.{
  ℕ, zero, suc, ◌+◌, ◌-◌, ◌≤◌, ◌≡◌, refl, ap, Bool, Option, none, some, List, [], ◌∷◌, arith, inl,
  inr, Bool-cases, Option-cases, length, drop, keep, sym,
}
use claude_code_fusion.Common.Text.{Text}
use claude_code_fusion.Guard.State.{
  LogEntry, dispatch_log_limit, last_entries, prune_expired_launched_dispatches,
}
use claude_code_fusion.Guard.Dispatch.{
  Dispatch, confirm_last, confirm_by_id, or_found, by_id, by_lane, confirm_launched, log_of,
}

length-drop_le : {A : Type 0} → (n m : ℕ) (xs : List A) → length xs ≤ n + m → length (drop n xs) ≤ m
length-drop_le zero m xs h = omega arith
length-drop_le (suc n) m [] h = omega arith
length-drop_le (suc n) m (x ∷ xs) h = length-drop_le n m xs (omega arith)

length-keep_le : {A : Type 0} → (p : A → Bool) (xs : List A) → length (keep p xs) ≤ length xs
length-keep_le p [] = omega arith
length-keep_le p (x ∷ xs) = ground (arith, length-keep_le p xs)

pub last_entries-length_le : (log : List LogEntry) → length (last_entries log) ≤ dispatch_log_limit
unfolding last_entries
last_entries-length_le log =
    length-drop_le (length log - dispatch_log_limit) dispatch_log_limit log (omega arith)

pub pruned-length_le :
    (log : List LogEntry) (now : ℕ)
    → length (prune_expired_launched_dispatches log now) ≤ length log
unfolding prune_expired_launched_dispatches
pruned-length_le log now = length-keep_le _ log

-- The log behind a confirmation in place has the length it had.
abbrev IsSized : ℕ → Option (LogEntry × List LogEntry) → Type 0
IsSized n none = Unit
IsSized n (some (f, log)) = length log ≡ n

confirm_last-IsSized :
    (d : Dispatch) (p : LogEntry → Bool) (log : List LogEntry)
    → IsSized (length log) (confirm_last d p log)
unfolding confirm_last
confirm_last-IsSized d p [] = tt
confirm_last-IsSized d p (e ∷ log) = elim (Option-cases (confirm_last d p log)) [
  | inl n ↦ rw n (elim (Bool-cases (p e)) [ inl y ↦ rw y refl | inr m ↦ rw m tt ])
  | inr ((f, rest), found) ↦
      rw found (ap suc (subst (IsSized (length log)) found (confirm_last-IsSized d p log)))
]

or_found-IsSized :
    (n : ℕ) (found other : Option (LogEntry × List LogEntry))
    → IsSized n found
    → IsSized n other
    → IsSized n (or_found found other)
or_found-IsSized n none other h k = k
or_found-IsSized n (some f) other h k = h

confirm_by_id-IsSized :
    (d : Dispatch) (id : Option Text) (log : List LogEntry)
    → IsSized (length log) (confirm_by_id d id log)
confirm_by_id-IsSized d none log = tt
confirm_by_id-IsSized d (some id) log = confirm_last-IsSized d (by_id id) log

pub confirm_launched-IsSized :
    (d : Dispatch) (log : List LogEntry) → IsSized (length log) (confirm_launched d log)
unfolding confirm_launched
confirm_launched-IsSized d log =
    or_found-IsSized (length log) _ _ (confirm_by_id-IsSized d d.tool_use_id log)
      (confirm_last-IsSized d (by_lane d.lane) log)

pub log_of-length_le :
    (d : Dispatch) (now : ℕ) (log : List LogEntry) (found : Option (LogEntry × List LogEntry))
    → length log ≤ dispatch_log_limit
    → IsSized (length log) found
    → length (log_of d now log found) ≤ dispatch_log_limit
log_of-length_le d now log none h k = last_entries-length_le _
log_of-length_le d now log (some (f, log')) h k = subst (λ n. n ≤ dispatch_log_limit) (sym k) h
