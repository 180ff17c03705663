-- ===== src/Command/Evidence.antt =====
-- plugins/fusion/scripts/lib/verification-command.mjs: what the response of a tool proves of a
-- verification.
use Prim.Native.String.{String}
use claude_code_fusion.Common.{
  ℕ, zero, suc, Bool, true, false, not, ◌&&◌, ◌||◌, Option, none, some, List, [], ◌∷◌, ◌++◌, map,
  leb, ◌==◌, if◌then◌else◌, any,
}
use claude_code_fusion.Common.Text.{Text, codes, is_empty, is_space}
use claude_code_fusion.Common.Json.{
  Value, string, object, array, boolean, number, null, Fields, Values, none_left, and_more, get,
}
use claude_code_fusion.Common.Regex.{
  Regex, seq, alt, star, unit, at_start, at_end, word_boundary, test_lines, test_lines_i, test_i,
  lit, one_of, opt, plus, then_all, digit, space, any_unit,
}
use claude_code_fusion.Command.Recognize.{verification_command}

abbrev pub is_truthy : Option Value → Bool
is_truthy none = false
is_truthy (some null) = false
is_truthy (some (boolean b)) = b
is_truthy (some (number n)) = not (n == 0)
is_truthy (some (string t)) = not (is_empty t)
is_truthy (some (array xs)) = true
is_truthy (some (object fs)) = true

abbrev is_nonzero : Option Value → Bool
is_nonzero (some (number n)) = not (n == 0)
is_nonzero _ = false

abbrev exit_keys : List Text
exit_keys = map codes ("exitCode" ∷ "exit_code" ∷ "code" ∷ "returnCode" ∷ [])

unfoldable pub verification_response_failed : Fields → Bool
verification_response_failed fs =
    is_truthy (get (codes "is_error") fs)
    || is_truthy (get (codes "isError") fs)
    || is_truthy (get (codes "interrupted") fs)
    || any (λ k. is_nonzero (get k fs)) exit_keys

abbrev text_keys : List Text
text_keys = map codes ("output" ∷ "stdout" ∷ "text" ∷ "content" ∷ "result" ∷ "toolUseResult" ∷ [])

abbrev items_text : (Value → List Text) → Values → List Text
items_text f none_left = []
items_text f (and_more v vs) = f v ++ items_text f vs

abbrev optional_text : (Value → List Text) → Option Value → List Text
optional_text f none = []
optional_text f (some v) = f v

abbrev keys_text : (Value → List Text) → Fields → List Text → List Text
keys_text f fs [] = []
keys_text f fs (k ∷ ks) = optional_text f (get k fs) ++ keys_text f fs ks

-- `appendToolResponseText`, from the number of levels that are left, 4 less `depth`.
unfoldable pub tool_response_text : ℕ → Value → List Text
tool_response_text zero (string t) = t ∷ []
tool_response_text zero v = []
tool_response_text (suc n) (string t) = t ∷ []
tool_response_text (suc n) (array xs) = items_text (tool_response_text n) xs
tool_response_text (suc n) (object fs) = keys_text (tool_response_text n) fs text_keys
tool_response_text (suc n) v = []

abbrev pub join_lines : List Text → Text
join_lines [] = []
join_lines (t ∷ []) = t
join_lines (t ∷ u ∷ ts) = t ++ (b'\n' ∷ join_lines (u ∷ ts))

abbrev l : String → Regex
l s = lit (codes s)

abbrev positive : Regex
positive = seq (unit (λ c. leb b'1' c && leb c b'9')) (star digit)

abbrev not_break : Regex
not_break = star (unit (λ c. not (c == b'\r') && not (c == b'\n')))

-- The information sign that node's test runner prints.
abbrev info_mark : Regex
info_mark = unit (λ c. c == 8505)

abbrev lines_i : List Regex → Text → Bool
lines_i rs t = any (λ r. test_lines_i r t) rs

abbrev pass_lines : List Regex
pass_lines =
    then_all (
      at_start
      ∷ star space
      ∷ one_of (codes "test files" ∷ codes "tests" ∷ [])
      ∷ plus space
      ∷ plus digit
      ∷ plus space
      ∷ l "passed"
      ∷ word_boundary
      ∷ [])
    ∷ then_all (
        at_start
        ∷ star space
        ∷ l "tests:"
        ∷ star space
        ∷ star any_unit
        ∷ word_boundary
        ∷ plus digit
        ∷ plus space
        ∷ l "passed,"
        ∷ plus space
        ∷ plus digit
        ∷ plus space
        ∷ l "total"
        ∷ word_boundary
        ∷ [])
    ∷ then_all (
        at_start
        ∷ star space
        ∷ l "test result:"
        ∷ plus space
        ∷ l "ok."
        ∷ not_break
        ∷ word_boundary
        ∷ l "0"
        ∷ plus space
        ∷ l "failed"
        ∷ word_boundary
        ∷ not_break
        ∷ at_end
        ∷ [])
    ∷ then_all (
        at_start
        ∷ star space
        ∷ opt (seq info_mark (plus space))
        ∷ l "fail"
        ∷ plus space
        ∷ l "0"
        ∷ word_boundary
        ∷ [])
    ∷ []

abbrev pass_anywhere : Regex
pass_anywhere = then_all (
    word_boundary
    ∷ plus digit
    ∷ plus space
    ∷ l "passed"
    ∷ plus space
    ∷ l "in"
    ∷ plus space
    ∷ plus (unit (λ c. not (is_space c)))
    ∷ [])

-- `PASS_SUMMARY_PATTERNS.some(…)`.
unfoldable pub output_passes : Text → Bool
output_passes t = any (λ r. test_lines_i r t) pass_lines || test_i pass_anywhere t

abbrev fail_lines : List Regex
fail_lines =
    then_all (
      at_start
      ∷ star space
      ∷ alt (seq (unit (λ c. c == 10006)) space) (seq (l "not ok") word_boundary)
      ∷ [])
    ∷ then_all (
        at_start
        ∷ star space
        ∷ alt (seq info_mark (plus space)) (seq (l "#") (plus space))
        ∷ l "fail"
        ∷ plus space
        ∷ positive
        ∷ word_boundary
        ∷ [])
    ∷ []

abbrev failed_count : Regex
failed_count = then_all (
    positive
    ∷ plus space
    ∷ l "fail"
    ∷ alt (l "ed") (seq (l "ure") (opt (l "s")))
    ∷ word_boundary
    ∷ [])

abbrev error_count : Regex
error_count = then_all (positive ∷ plus space ∷ l "error" ∷ opt (l "s") ∷ word_boundary ∷ [])

-- `/^\s*FAIL\b/m`, in upper case only.
abbrev fail_mark : Regex
fail_mark = then_all (at_start ∷ star space ∷ l "FAIL" ∷ word_boundary ∷ [])

-- `FAILURE_SUMMARY_PATTERNS.some(…)`.
unfoldable pub output_fails : Text → Bool
output_fails t =
    any (λ r. test_lines_i r t) fail_lines
    || test_i failed_count t
    || test_lines fail_mark t
    || test_i error_count t

pub record Summary : Type 0 where
  pub passes : Bool
  pub fails : Bool

-- The response is `none` where it is no object.
unfoldable pub verification_output_summary : Option Fields → Summary
verification_output_summary none = record { passes = false; fails = false }
verification_output_summary (some fs) =
    let output = join_lines (tool_response_text 4 (object fs)) in
    if verification_response_failed fs
    then record { passes = false; fails = false }
    else record { passes = output_passes output; fails = output_fails output }

unfoldable pub verification_output_passes : Option Fields → Bool
verification_output_passes r =
    (verification_output_summary r).passes && not (verification_output_summary r).fails

pub data Evidence : Type 0 where
  exit_status output_summary : Evidence

unfoldable pub verification_evidence : Option (Text → Bool) → Text → Option Fields → Option Evidence
verification_evidence pattern command none = none
verification_evidence pattern command (some fs) =
    let verification = verification_command pattern command in
    let summary = verification_output_summary (some fs) in
    if not verification.recognized
    then none
    else if verification_response_failed fs
    then none
    else if summary.fails
    then none
    else if verification.observable
    then some exit_status
    else if summary.passes
    then some output_summary
    else none
