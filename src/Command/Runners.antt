-- ===== src/Command/Runners.antt =====
-- plugins/fusion/scripts/lib/verification-command.mjs: the tables of runners, and the words of a segment.
use Prim.Native.String.{String}
use claude_code_fusion.Common.{
  ℕ, zero, suc, Bool, true, false, not, ◌&&◌, ◌||◌, Option, none, some, List, [], ◌∷◌, map, leb,
  if◌then◌else◌, last?, keep, any, or_else, head?,
}
use claude_code_fusion.Common.Text.{
  Text, codes, text_eq, has, starts_with, to_lower, split_on, words,
}
use claude_code_fusion.Common.Regex.{
  Regex, star, unit, at_start, lit, one_of, then_all, chars, test, is_word,
}

abbrev wrapper_heads : List Text
wrapper_heads =
    map codes ("time" ∷ "nice" ∷ "command" ∷ "npx" ∷ "bunx" ∷ "uvx" ∷ "dotenv" ∷ "cross-env" ∷ [])

abbrev pub table : List (Text × List Text) → Text → Option (List Text)
table [] t = none
table ((k, ws) ∷ rest) t = if text_eq k t then some ws else table rest t

abbrev pub entry : String → List String → Text × List Text
entry k ws = (codes k, map codes ws)

abbrev wrapper_subcommands : List (Text × List Text)
wrapper_subcommands =
    entry "npm" ("exec" ∷ [])
    ∷ entry "pnpm" ("exec" ∷ "dlx" ∷ [])
    ∷ entry "yarn" ("exec" ∷ "dlx" ∷ [])
    ∷ entry "bun" ("x" ∷ "run" ∷ [])
    ∷ entry "uv" ("run" ∷ [])
    ∷ entry "poetry" ("run" ∷ [])
    ∷ entry "pipenv" ("run" ∷ [])
    ∷ entry "rye" ("run" ∷ [])
    ∷ entry "hatch" ("run" ∷ [])
    ∷ entry "mise" ("exec" ∷ "run" ∷ [])
    ∷ []

abbrev pub navigation_heads : List Text
navigation_heads = map codes ("cd" ∷ "pushd" ∷ "popd" ∷ "export" ∷ "set" ∷ "source" ∷ "." ∷ [])

abbrev package_managers : List Text
package_managers = map codes ("npm" ∷ "pnpm" ∷ "yarn" ∷ "bun" ∷ "deno" ∷ [])

abbrev mutating_subcommands : List Text
mutating_subcommands = map codes (
    "add" ∷ "create" ∷ "dedupe" ∷ "i" ∷ "init" ∷ "install" ∷ "link" ∷ "outdated" ∷ "pack"
    ∷ "publish" ∷ "remove" ∷ "rm" ∷ "uninstall" ∷ "unlink" ∷ "up" ∷ "update" ∷ "upgrade" ∷ "why"
    ∷ [])

abbrev verification_scripts : List Text
verification_scripts = map codes (
    "build" ∷ "check" ∷ "checks" ∷ "coverage" ∷ "lint" ∷ "spec" ∷ "test" ∷ "tests" ∷ "type-check"
    ∷ "typecheck" ∷ "types" ∷ "unit" ∷ "verify" ∷ [])

-- `/^(?:test|tests|…|e2e)[:._-]/`.
abbrev verification_script_prefix : Regex
verification_script_prefix = then_all (
    at_start
    ∷ one_of (
        map codes (
          "test" ∷ "tests" ∷ "spec" ∷ "unit" ∷ "lint" ∷ "check" ∷ "typecheck" ∷ "type-check"
          ∷ "verify" ∷ "coverage" ∷ "e2e" ∷ []))
    ∷ chars (codes ":._-")
    ∷ [])

abbrev unconditional_runners : List Text
unconditional_runners = map codes (
    "ava" ∷ "ctest" ∷ "eslint" ∷ "jest" ∷ "mocha" ∷ "mypy" ∷ "nox" ∷ "oxlint" ∷ "phpstan"
    ∷ "phpunit" ∷ "psalm" ∷ "pyright" ∷ "pytest" ∷ "rspec" ∷ "rubocop" ∷ "shellcheck" ∷ "stylelint"
    ∷ "tap" ∷ "tox" ∷ "tsc" ∷ "tsd" ∷ "tsgo" ∷ "vitest" ∷ [])

abbrev conditional_runners : List (Text × List Text)
conditional_runners =
    entry "bazel" ("test" ∷ [])
    ∷ entry "biome" ("check" ∷ "ci" ∷ "lint" ∷ [])
    ∷ entry "cargo" ("check" ∷ "clippy" ∷ "nextest" ∷ "test" ∷ [])
    ∷ entry "cypress" ("run" ∷ [])
    ∷ entry "deno" ("check" ∷ "lint" ∷ "test" ∷ [])
    ∷ entry "dotnet" ("test" ∷ [])
    ∷ entry "flutter" ("analyze" ∷ "test" ∷ [])
    ∷ entry "go" ("test" ∷ "vet" ∷ [])
    ∷ entry "gradle" ("check" ∷ "test" ∷ [])
    ∷ entry "gradlew" ("check" ∷ "test" ∷ [])
    ∷ entry "just" ("check" ∷ "ci" ∷ "lint" ∷ "test" ∷ "typecheck" ∷ "verify" ∷ [])
    ∷ entry "make" ("check" ∷ "ci" ∷ "lint" ∷ "test" ∷ "typecheck" ∷ "verify" ∷ [])
    ∷ entry "mvn" ("test" ∷ "verify" ∷ [])
    ∷ entry "mvnw" ("test" ∷ "verify" ∷ [])
    ∷ entry "playwright" ("test" ∷ [])
    ∷ entry "rake" ("spec" ∷ "test" ∷ [])
    ∷ entry "ruff" ("check" ∷ [])
    ∷ entry "swift" ("build" ∷ "test" ∷ [])
    ∷ entry "xcodebuild" ("test" ∷ [])
    ∷ []

abbrev flag_gated_runners : List (Text × List Text)
flag_gated_runners = entry "node" ("--test" ∷ []) ∷ entry "prettier" ("--check" ∷ "-c" ∷ []) ∷ []

-- `token.split("/").pop()` in lower case.
unfoldable pub command_head : Text → Text
command_head token = to_lower (or_else (last? (split_on b'/' token)) token)

abbrev starts_digit : ℕ → Bool
starts_digit c = leb b'0' c && leb c b'9'

-- `/^[A-Za-z_][A-Za-z0-9_]*=/`; `unit is_word` is the second class.
abbrev env_assignment : Regex
env_assignment = then_all (
    at_start
    ∷ unit (λ c. is_word c && not (starts_digit c))
    ∷ star (unit is_word)
    ∷ lit (codes "=")
    ∷ [])

unfoldable pub tokenize : Text → List Text
tokenize segment = keep (λ token. not (test env_assignment token)) (words segment)

-- The first later word that is a subcommand, in lower case, and the words behind it.
unfoldable pub after_subcommand : List Text → List Text → Option (Text × List Text)
after_subcommand subs [] = none
after_subcommand subs (t ∷ ts) =
    if has subs (to_lower t) then some (to_lower t, ts) else after_subcommand subs ts

-- What a wrapper with subcommands leaves: `none` ends the loop with the words as they are.
abbrev unwrap : Text → List Text → Option (List Text) → Option (List Text)
unwrap head ts none = none
unwrap head ts (some subs) = elim (after_subcommand subs ts) [
  | none ↦ none
  | some (sub, rest) ↦
      if text_eq head (codes "bun") && text_eq sub (codes "run") then none else some rest
]

-- The loop over at most `depth` wrappers.
unfoldable pub strip_wrappers : ℕ → List Text → List Text
strip_wrappers zero ts = ts
strip_wrappers (suc depth) [] = []
strip_wrappers (suc depth) (t ∷ ts) =
    if has wrapper_heads (command_head t)
    then strip_wrappers depth ts
    else elim (unwrap (command_head t) ts (table wrapper_subcommands (command_head t))) [
      | none ↦ t ∷ ts
      | some rest ↦ strip_wrappers depth rest
    ]

-- The loop over `tokens.slice(1)`.
unfoldable pub positionals_of : List Text → List Text
positionals_of [] = []
positionals_of (t ∷ ts) =
    let rest = positionals_of ts in
    if text_eq t (codes "--")
    then []
    else if starts_with (codes "-") t
    then rest
    else to_lower t ∷ rest

abbrev tail_of : List Text → List Text
tail_of [] = []
tail_of (t ∷ ts) = ts

abbrev positional_tokens : List Text → List Text
positional_tokens ts = positionals_of (tail_of ts)

unfoldable pub matches_package_manager : Text → List Text → Bool
matches_package_manager head ts =
    if not (has package_managers head)
    then false
    else if any (has mutating_subcommands) (positional_tokens ts)
    then false
    else any
        (λ t.
          has verification_scripts t
          || test verification_script_prefix t
          || has unconditional_runners (command_head t))
        (positional_tokens ts)

-- `tokens[1]`, `tokens[2]`, in lower case or as they stand.
abbrev word_is : Option Text → Text → Bool
word_is none w = false
word_is (some t) w = text_eq t w

abbrev lower_is : Option Text → Text → Bool
lower_is none w = false
lower_is (some t) w = text_eq (to_lower t) w

abbrev by_flags : List Text → Option (List Text) → Bool
by_flags ts none = false
by_flags ts (some flags) = any (λ t. has flags (to_lower t)) (tail_of ts)

abbrev by_condition : Text → List Text → Option (List Text) → Bool
by_condition head ts (some wanted) = any (has wanted) (positional_tokens ts)
by_condition head ts none = by_flags ts (table flag_gated_runners head)

unfoldable pub matches_runner : Text → List Text → Bool
matches_runner head ts =
    let args = tail_of ts in
    let second = head? args in
    let third = head? (tail_of args) in
    if text_eq head (codes "git")
      && lower_is second (codes "diff")
      && has (tail_of args) (codes "--check")
    then true
    else if (text_eq head (codes "python") || text_eq head (codes "python3"))
        && word_is second (codes "-m")
        && lower_is third (codes "pytest")
    then true
    else if has unconditional_runners head
    then true
    else by_condition head ts (table conditional_runners head)
