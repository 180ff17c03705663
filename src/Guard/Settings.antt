-- ===== src/Guard/Settings.antt =====
-- plugins/fusion/scripts/lib/guard/config.mjs and plugins/fusion/scripts/lib/posture.mjs: the settings
-- of the guard.
use claude_code_fusion.Common.{
  ℕ, Bool, Option, none, some, List, [], ◌∷◌, leb, ltb, if◌then◌else◌, or_else,
}
use claude_code_fusion.Common.Text.{Text, codes, text_eq, has, trim, is_blank, to_lower}
use claude_code_fusion.Worker.Budget.{max_safe_integer, parse_int}

-- The variables of the environment, where they are set.
pub record GuardEnv : Type 0 where
  pub posture : Option Text
  pub budget : Option Text
  pub tail_max_bytes : Option Text
  pub tail_allowance : Option Text
  pub zero_dispatch_max_bytes : Option Text
  pub zero_dispatch_writes : Option Text

pub record Settings : Type 0 where
  pub strict : Bool
  pub budget : ℕ
  pub tail_max_bytes : ℕ
  pub tail_allowance : ℕ
  pub zero_dispatch_max_bytes : ℕ
  pub zero_dispatch_writes : ℕ

abbrev posture_values : List Text
posture_values = codes "judgment" ∷ codes "strict" ∷ []

unfoldable pub normalize_posture : Option Text → Option Text
normalize_posture none = none
normalize_posture (some t) =
    if has posture_values (to_lower (trim t)) then some (to_lower (trim t)) else none

abbrev first_posture : Option Text → Option Text → Text
first_posture (some p) file = p
first_posture none file = or_else file (codes "judgment")

-- `file` is what the posture file holds, if it can be read.
unfoldable pub resolve_posture : Option Text → Option Text → Text
resolve_posture variable file = first_posture (normalize_posture variable) (normalize_posture file)

abbrev if_positive : Option ℕ → ℕ → ℕ
if_positive none fallback = fallback
if_positive (some n) fallback = if ltb 0 n then n else fallback

unfoldable pub resolve_budget : Option Text → ℕ
resolve_budget variable = if_positive (parse_int (or_else variable [])) 5

abbrev if_safe : Option ℕ → ℕ → ℕ
if_safe none fallback = fallback
if_safe (some n) fallback = if leb n max_safe_integer then n else fallback

-- `to_number` is the host's `Number`, where it gives an integer that is not negative.
module _ (to_number : Text → Option ℕ) where
  unfoldable pub resolve_nonnegative_integer : Option Text → ℕ → ℕ
  resolve_nonnegative_integer none fallback = fallback
  resolve_nonnegative_integer (some raw) fallback =
      if is_blank raw then fallback else if_safe (to_number (trim raw)) fallback

  unfoldable pub resolve_settings : GuardEnv → Option Text → Settings
  resolve_settings env file = record {
    strict = text_eq (resolve_posture env.posture file) (codes "strict");
    budget = resolve_budget env.budget;
    tail_max_bytes = resolve_nonnegative_integer env.tail_max_bytes 1024;
    tail_allowance = resolve_nonnegative_integer env.tail_allowance 3;
    zero_dispatch_max_bytes = resolve_nonnegative_integer env.zero_dispatch_max_bytes 16384;
    zero_dispatch_writes = resolve_nonnegative_integer env.zero_dispatch_writes 10;
  }
