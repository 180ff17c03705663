-- ===== src/Guard/Transcript.antt =====
-- plugins/fusion/scripts/lib/guard/verification.mjs: what the tail of a transcript says of a tool's use,
-- from its parsed lines.
use claude_code_fusion.Common.{
  ℕ, Bool, false, ◌&&◌, ◌||◌, Option, none, some, List, [], ◌∷◌, ltb, leb, ◌==◌, if◌then◌else◌,
  length, every,
}
use claude_code_fusion.Common.Text.{Text, codes, text_eq, is_empty, trim}
use claude_code_fusion.Common.Json.{
  Value, string, object, array, Fields, end, Values, none_left, and_more, get,
}

abbrev fields_of : Option Value → Fields
fields_of (some (object fs)) = fs
fields_of _ = end

abbrev text_of : Option Value → Option Text
text_of (some (string t)) = some t
text_of _ = none

abbrev list_of : Option Value → Option Values
list_of (some (array vs)) = some vs
list_of _ = none

abbrev list_or : Option Values → Option Values → Values
list_or (some vs) ws = vs
list_or none (some ws) = ws
list_or none none = none_left

unfoldable pub transcript_entry_content : Value → Values
transcript_entry_content entry =
    let fs = fields_of (some entry) in
    list_or (list_of (get (codes "content") (fields_of (get (codes "message") fs))))
      (list_of (get (codes "content") fs))

abbrev is_text : Option Value → Text → Bool
is_text (some (string t)) s = text_eq t s
is_text _ s = false

abbrev is_use : Text → Value → Bool
is_use id block =
    is_text (get (codes "type") (fields_of (some block))) (codes "tool_use")
    && is_text (get (codes "id") (fields_of (some block))) id

unfoldable pub any_value : (Value → Bool) → Values → Bool
any_value p none_left = false
any_value p (and_more v vs) = p v || any_value p vs

abbrev is_id_unit : ℕ → Bool
is_id_unit c =
    (leb b'A' c && leb c b'Z')
    || (leb b'a' c && leb c b'z')
    || (leb b'0' c && leb c b'9')
    || c == b'_'
    || c == b'-'

-- `/^[A-Za-z0-9_-]+$/` is a test of each unit.
unfoldable pub normalize_message_id : Option Text → Option Text
normalize_message_id none = none
normalize_message_id (some t) =
    if ltb 0 (length t) && leb (length t) 128 && every is_id_unit t then some t else none

abbrev has_use : Text → Value → Bool
has_use id entry =
    is_text (get (codes "type") (fields_of (some entry))) (codes "assistant")
    && any_value (is_use id) (transcript_entry_content entry)

-- `entries` are in the order in which the loop takes them, the last line first.
unfoldable pub message_id_from : Text → List Value → Option Text
message_id_from id [] = none
message_id_from id (entry ∷ entries) =
    if has_use id entry
    then normalize_message_id
        (text_of (get (codes "id") (fields_of (get (codes "message") (fields_of (some entry))))))
    else message_id_from id entries

abbrev pub message_id_for_tool_use : List Value → Option Text → Option Text
message_id_for_tool_use entries none = none
message_id_for_tool_use entries (some id) = if is_empty id then none else message_id_from id entries

abbrev trimmed_text : Option Text → Option Text
trimmed_text none = none
trimmed_text (some t) = some (trim t)

unfoldable pub extract_bash_command : Option Value → Option Text
extract_bash_command input = trimmed_text (text_of (get (codes "command") (fields_of input)))
