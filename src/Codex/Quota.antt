-- ===== src/Codex/Quota.antt =====
-- plugins/codex/scripts/lib/state.mjs: pruneJobState takes only jobs that have ended and are not protected,
-- and stops short of the quota only when nothing is left to take.
use claude_code_fusion.Common.{
  ℕ, ◌+◌, ◌≤◌, ◌≡◌, ◌⊎◌, Bool, true, false, not, ◌&&◌, List, [], ◌∷◌, leb, if◌then◌else◌, is_some,
}
use claude_code_fusion.Common.Text.{Text, has}
use claude_code_fusion.Codex.History.{
  Entry, Quota, Tier, heavy, light, Found, has_ended, Sweep, removes,
}

-- The entries that a test holds of, counted.
pub count : (Entry → Bool) → List Entry → ℕ
count p [] = 0
count p (e ∷ es) = (if p e then 1 else 0) + count p es

-- A candidate has ended and is not protected.
abbrev pub Candidate : List Text → Entry → Type 0
Candidate protected e = (has_ended e ≡ true) × (has protected e.key ≡ false)

module _ (q : Quota) (snapshot : List Text) (found : Tier → Entry → Found) where
  abbrev pub takes : Tier → Entry → Bool
  takes tier e = is_some (removes q snapshot found tier e)

  abbrev pub heavy_due : Entry → Bool
  heavy_due e = not e.artifacts_pruned && takes heavy e

  Less : Sweep → Sweep → Type 0
  Less v w =
      (v.after_records ≤ w.after_records)
      × (v.after_bytes ≤ w.after_bytes)
      × (v.after_light_records ≤ w.after_light_records)

  -- What the second loop does to the counts.
  record Swept (now : ℕ) (es : List Entry) (w v : Sweep) : Type 0 where
    less : Less v w
    tried :
        (leb v.after_light_records q.record_max_records ≡ true)
        ⊎ (v.deleted_records ≡ w.deleted_records + count (takes light) es)
