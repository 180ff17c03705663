-- ===== src/Worker/Reasons.antt =====
-- plugins/fusion/scripts/lib/worker-state.mjs, `validatedAcceptanceFields`: the reason of a verdict, cut
-- short and without keys.
use claude_code_fusion.Common.{
  ℕ, zero, suc, ◌+◌, Bool, not, ◌&&◌, ◌||◌, Option, none, some, List, [], ◌∷◌, ◌++◌, leb, ltb, ◌==◌,
  if◌then◌else◌, length, take, drop, map,
}
use claude_code_fusion.Common.Text.{Text, codes, starts_with, trim, is_space, is_blank, to_lower}

-- `text.replace(pattern, replacement)` for a pattern with the flag `g` that matches where `m` gives the
-- number of units; `skip` of the units belong to a match.
unfoldable pub replace_from : (Text → ℕ) → Text → ℕ → Text → Text
replace_from m r skip [] = []
replace_from m r (suc skip) (c ∷ cs) = replace_from m r skip cs
replace_from m r zero (c ∷ cs) = elim (m (c ∷ cs)) [
  | zero ↦ c ∷ replace_from m r zero cs
  | suc n ↦ r ++ replace_from m r n cs
]

-- The number of units at the front that pass the test.
unfoldable pub run_length : (ℕ → Bool) → Text → ℕ
run_length p [] = 0
run_length p (c ∷ cs) = let rest = run_length p cs in if p c then suc rest else 0

-- `/[\r\n\u0000-\u001f\u007f]+/`.
abbrev pub is_control : ℕ → Bool
is_control c = leb c 31 || c == 127

abbrev is_alphanumeric : ℕ → Bool
is_alphanumeric c =
    (leb b'A' c && leb c b'Z') || (leb b'a' c && leb c b'z') || (leb b'0' c && leb c b'9')

abbrev is_key_part : ℕ → Bool
is_key_part c = is_alphanumeric c || c == b'_' || c == b'-'

-- A prefix and at least so many units of a class.
abbrev key_length : Text → (ℕ → Bool) → ℕ → Text → ℕ
key_length front p least t =
    let run = run_length p (drop (length front) t) in
    if starts_with front t && leb least run then length front + run else 0

abbrev first_length : List (Text → ℕ) → Text → ℕ
first_length [] t = 0
first_length (m ∷ ms) t = let rest = first_length ms t in if ltb 0 (m t) then m t else rest

-- `/sk-[A-Za-z0-9_-]{16,}/`.
abbrev pub api_key : Text → ℕ
api_key = key_length (codes "sk-") is_key_part 16

-- `/(?:ghp_|gho_|ghu_|ghs_|ghr_)[A-Za-z0-9]{20,}/`.
abbrev pub github_key : Text → ℕ
github_key = first_length (
    map (λ s. key_length (codes s) is_alphanumeric 20)
      ("ghp_" ∷ "gho_" ∷ "ghu_" ∷ "ghs_" ∷ "ghr_" ∷ []))

-- `/xai-[A-Za-z0-9]{16,}/`.
abbrev pub xai_key : Text → ℕ
xai_key = key_length (codes "xai-") is_alphanumeric 16

abbrev after_bearer : ℕ → Text → ℕ
after_bearer gap t =
    let run = run_length (λ c. not (is_space c)) (drop gap t) in
    if ltb 0 gap && leb 20 run then gap + run else 0

-- `/Bearer\s+\S{20,}/i`.
abbrev pub bearer_token : Text → ℕ
bearer_token t =
    let rest = drop 6 t in
    let more = after_bearer (run_length is_space rest) rest in
    if starts_with (codes "bearer") (to_lower t) && ltb 0 more then 6 + more else 0

abbrev pub redacted : Text
redacted = codes "[redacted]"

unfoldable pub cleaned : Text → Text
cleaned t = replace_from bearer_token (codes "Bearer [redacted]") 0 (
    replace_from xai_key redacted 0 (
      replace_from github_key redacted 0
        (replace_from api_key redacted 0 (replace_from (run_length is_control) (codes " ") 0 t))))

-- The reason is `none` where it is no string.
unfoldable pub safe_reason : Option Text → Option Text
safe_reason none = none
safe_reason (some t) = if is_blank t then none else some (take 240 (trim (cleaned t)))
