-- ===== src/Breaker/Kinds.antt =====
-- plugins/fusion/scripts/breaker-check.mjs: failure kinds, statuses, and the patterns that read a
-- kind from an error text.
use Prim.Native.String.{String}
use claude_code_fusion.Common.{Option, none, some, List, [], ◌∷◌, ◌++◌, if◌then◌else◌}
use claude_code_fusion.Common.Text.{Text, codes, is_blank}
use claude_code_fusion.Common.Regex.{
  Regex, seq, alt, star, unit, word_boundary, test_i, lit, one_of, opt, plus, then_all, digit,
  space, any_unit, chars, is_word,
}

abbrev pub hard_failure_kinds : List Text
hard_failure_kinds =
    codes "quota"
    ∷ codes "auth"
    ∷ codes "missing_cli"
    ∷ codes "setup"
    ∷ codes "protocol"
    ∷ codes "transport"
    ∷ codes "sandbox"
    ∷ []

abbrev pub repeated_failure_kinds : List Text
repeated_failure_kinds =
    codes "rate_limited"
    ∷ codes "timeout"
    ∷ codes "stall"
    ∷ codes "network"
    ∷ codes "process"
    ∷ codes "died"
    ∷ codes "patch_thrash"
    ∷ codes "exec_lost"
    ∷ []

abbrev pub pool_scoped_kinds : List Text
pool_scoped_kinds = codes "quota" ∷ codes "rate_limited" ∷ []

abbrev pub breaker_failure_kinds : List Text
breaker_failure_kinds = hard_failure_kinds ++ (repeated_failure_kinds ++ (codes "permission" ∷ []))

abbrev pub failure_statuses : List Text
failure_statuses = codes "error" ∷ codes "failed" ∷ []

abbrev pub success_statuses : List Text
success_statuses = codes "done" ∷ codes "completed" ∷ []

abbrev pub terminal_statuses : List Text
terminal_statuses = failure_statuses ++ (success_statuses ++ (codes "cancelled" ∷ []))

abbrev word : Regex → Regex
word r = then_all (word_boundary ∷ r ∷ word_boundary ∷ [])

abbrev l : String → Regex
l s = lit (codes s)

abbrev either : Regex → Regex → Regex
either = alt

-- `https?`-like status texts of a quota refusal.
abbrev quota_pattern : Regex
quota_pattern = either (l "quota") (
    either
      (then_all (
        l "insufficient "
        ∷ opt (l "account ")
        ∷ one_of (codes "balance" ∷ codes "credit" ∷ codes "credits" ∷ codes "funds" ∷ [])
        ∷ []))
      (either (then_all (l "balance " ∷ opt (l "is ") ∷ l "exhausted" ∷ [])) (
        either (then_all (l "exhausted " ∷ opt (l "account ") ∷ l "balance" ∷ [])) (
          either
            (one_of (
              codes "payment required"
              ∷ codes "usage limit"
              ∷ codes "billing"
              ∷ codes "credit limit"
              ∷ []))
            (either
              (then_all (
                l "http"
                ∷ opt (then_all (l "/" ∷ digit ∷ opt (seq (l ".") digit) ∷ []))
                ∷ plus space
                ∷ l "402"
                ∷ []))
              (then_all (
                l "status"
                ∷ opt (l " code")
                ∷ star space
                ∷ opt (chars (codes ":="))
                ∷ star space
                ∷ l "402"
                ∷ [])))))))

abbrev rate_limited_pattern : Regex
rate_limited_pattern =
    either (then_all (l "rate" ∷ opt (chars (codes " _-")) ∷ l "limit" ∷ []))
      (either (l "too many requests") (word (l "429")))

abbrev refused_pattern : Regex
refused_pattern =
    either
      (one_of (
        codes "misalignment policy"
        ∷ codes "cyber policy"
        ∷ codes "content policy"
        ∷ codes "reason: content_filter"
        ∷ []))
      (then_all (
        l "flagged for possible "
        ∷ one_of (codes "cybersecurity" ∷ codes "biological" ∷ [])
        ∷ l " risk"
        ∷ []))

abbrev auth_pattern : Regex
auth_pattern = either (then_all (l "unauthori" ∷ chars (codes "sz") ∷ l "ed" ∷ [])) (
    either (one_of (codes "unauthenticated" ∷ codes "authentication" ∷ [])) (
      either (then_all (l "auth" ∷ opt (l "entication") ∷ l " failed" ∷ []))
        (one_of (codes "invalid api key" ∷ codes "api key" ∷ []))))

abbrev network_pattern : Regex
network_pattern =
    either
      (one_of (
        codes "workspace routing discovery timed out"
        ∷ codes "stream disconnected before completion"
        ∷ codes "error sending request for url"
        ∷ codes "connection refused"
        ∷ codes "connection reset"
        ∷ []))
      (either
        (word (
          one_of (
            codes "econnreset"
            ∷ codes "econnrefused"
            ∷ codes "enotfound"
            ∷ codes "eai_again"
            ∷ [])))
        (one_of
          (codes "getaddrinfo" ∷ codes "network is unreachable" ∷ codes "reconnecting..." ∷ [])))

abbrev missing_cli_pattern : Regex
missing_cli_pattern =
    either (then_all (l "missing" ∷ opt (chars (codes " _-")) ∷ l "cli" ∷ []))
      (one_of (codes "command not found" ∷ codes "cli not found" ∷ codes "no such file" ∷ []))

abbrev timeout_pattern : Regex
timeout_pattern =
    either (then_all (l "time" ∷ opt (l "d") ∷ star space ∷ l "out" ∷ [])) (l "timeout")

abbrev stall_pattern : Regex
stall_pattern =
    either (word (seq (l "stall") (opt (one_of (codes "ed" ∷ codes "ing" ∷ [])))))
      (then_all (l "no" ∷ chars (codes "- ") ∷ l "progress" ∷ []))

abbrev protocol_pattern : Regex
protocol_pattern = one_of (
    codes "collaboration policy violation"
    ∷ codes "companion protocol violation"
    ∷ codes "transport protocol violation"
    ∷ [])

abbrev transport_pattern : Regex
transport_pattern =
    either
      (seq (l "transport ") (
        one_of
          (codes "preflight" ∷ codes "initialization" ∷ codes "handshake" ∷ codes "failed" ∷ [])))
      (either (l "broken pipe") (
        either (word (l "epipe")) (
          either (seq (l "failed to ") (one_of (codes "spawn" ∷ codes "launch" ∷ [])))
            (l "protocol stream closed"))))

abbrev eacces_or_eperm : Regex
eacces_or_eperm = word (one_of (codes "eacces" ∷ codes "eperm" ∷ []))

abbrev permission_pattern : Regex
permission_pattern =
    either eacces_or_eperm
      (one_of (codes "operation not permitted" ∷ codes "permission denied" ∷ []))

abbrev denied : Regex
denied =
    either (l "operation not permitted")
      (either (word (l "eacces")) (either (word (l "eperm")) (l "permission denied")))

abbrev transport_part : Regex
transport_part = one_of (
    codes "brief"
    ∷ codes "prompt"
    ∷ codes "transport"
    ∷ codes "state"
    ∷ codes "plugin"
    ∷ codes "sandbox"
    ∷ [])

abbrev pub transport_permission_pattern : Regex
transport_permission_pattern =
    either
      (then_all (
        one_of (codes "sandbox" ∷ codes "seatbelt" ∷ codes "landlock" ∷ [])
        ∷ star any_unit
        ∷ one_of (codes "init" ∷ codes "initializ" ∷ codes "profile" ∷ codes "policy" ∷ [])
        ∷ []))
      (either (then_all (denied ∷ star any_unit ∷ transport_part ∷ []))
        (then_all (transport_part ∷ star any_unit ∷ denied ∷ [])))

-- The texts behind a recorded kind "policy" that are protocol violations.
abbrev pub policy_protocol_pattern : Regex
policy_protocol_pattern = either protocol_pattern (
    then_all (
      l "delegated codex execution attempted the disabled " ∷ plus (unit is_word) ∷ l " tool" ∷ []))

abbrev codex_failure_patterns : List (Text × Regex)
codex_failure_patterns =
    (codes "quota", quota_pattern)
    ∷ (codes "rate_limited", rate_limited_pattern)
    ∷ (codes "refused", refused_pattern)
    ∷ (codes "auth", auth_pattern)
    ∷ (codes "network", network_pattern)
    ∷ (codes "missing_cli", missing_cli_pattern)
    ∷ (codes "timeout", timeout_pattern)
    ∷ (codes "stall", stall_pattern)
    ∷ (codes "protocol", protocol_pattern)
    ∷ (codes "transport", transport_pattern)
    ∷ (codes "permission", permission_pattern)
    ∷ []

unfoldable pub first_kind : List (Text × Regex) → Text → Option Text
first_kind [] t = none
first_kind ((kind, pattern) ∷ rest) t = if test_i pattern t then some kind else first_kind rest t

unfoldable pub codex_failure_kind : Text → Option Text
codex_failure_kind t = if is_blank t then none else first_kind codex_failure_patterns t
