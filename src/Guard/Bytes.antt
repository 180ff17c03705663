-- ===== src/Guard/Bytes.antt =====
-- plugins/fusion/scripts/lib/guard/write.mjs: what a write tool is asked to write, and where.
use claude_code_fusion.Common.{
  ℕ, ◌+◌, Bool, true, false, not, ◌&&◌, ◌||◌, Option, none, some, List, [], ◌∷◌, ltb, leb,
  if◌then◌else◌,
}
use claude_code_fusion.Common.Text.{Text, codes, text_eq, starts_with, is_empty}
use claude_code_fusion.Common.Json.{
  Value, string, object, array, boolean, number, null, Fields, field, end, Values, none_left,
  and_more, get,
}

-- `Buffer.byteLength`, the length in UTF-8. A pair of surrogates takes four bytes, a single one is
-- written as U+FFFD.
abbrev starts_low : Text → Bool
starts_low [] = false
starts_low (c ∷ cs) = leb 0xdc00 c && leb c 0xdfff

abbrev is_paired : ℕ → Text → Bool
is_paired c rest = leb 0xd800 c && leb c 0xdbff && starts_low rest

abbrev unit_bytes : ℕ → Bool → ℕ
unit_bytes c true = 4
unit_bytes c false = if ltb c 0x80 then 1 else if ltb c 0x800 then 2 else 3

-- The flag says that the unit was counted with the one before.
unfoldable pub bytes_from : Bool → Text → ℕ
bytes_from counted [] = 0
bytes_from true (c ∷ cs) = bytes_from false cs
bytes_from false (c ∷ cs) = unit_bytes c (is_paired c cs) + bytes_from (is_paired c cs) cs

unfoldable pub byte_length : Text → ℕ
byte_length t = bytes_from false t

abbrev is_written_key : Text → Bool
is_written_key key = text_eq key (codes "new_string") || text_eq key (codes "content")

abbrev text_bytes : Text → Text → ℕ
text_bytes key t = if is_written_key key then byte_length t else 0

unfoldable mutual
  pub inline_write_bytes : Value → ℕ
  inline_write_bytes (object fs) = field_bytes fs
  inline_write_bytes (array vs) = item_bytes vs
  inline_write_bytes (string t) = 0
  inline_write_bytes (boolean b) = 0
  inline_write_bytes (number n) = 0
  inline_write_bytes null = 0

  pub field_bytes : Fields → ℕ
  field_bytes end = 0
  field_bytes (field key (string t) fs) = text_bytes key t + field_bytes fs
  field_bytes (field key (object gs) fs) = field_bytes gs + field_bytes fs
  field_bytes (field key (array vs) fs) = item_bytes vs + field_bytes fs
  field_bytes (field key (boolean b) fs) = field_bytes fs
  field_bytes (field key (number n) fs) = field_bytes fs
  field_bytes (field key null fs) = field_bytes fs

  pub item_bytes : Values → ℕ
  item_bytes none_left = 0
  item_bytes (and_more v vs) = inline_write_bytes v + item_bytes vs

unfoldable pub input_bytes : Option Value → ℕ
input_bytes none = 0
input_bytes (some v) = inline_write_bytes v

-- The tool's input is `none` where it is missing or no object.
abbrev pub input_fields : Option Value → Fields
input_fields (some (object fs)) = fs
input_fields _ = end

abbrev bytes_of_string : Option Value → Option ℕ
bytes_of_string (some (string t)) = some (byte_length t)
bytes_of_string _ = none

unfoldable pub edit_replacement_bytes : Option Value → Option ℕ
edit_replacement_bytes input = bytes_of_string (get (codes "new_string") (input_fields input))

-- `left ?? right`.
abbrev or_value : Option Value → Option Value → Option Value
or_value none v = v
or_value (some null) v = v
or_value (some u) v = some u

abbrev pub path_text : Option Value → Option Text
path_text (some (string t)) = if is_empty t then none else some t
path_text _ = none

unfoldable pub extract_write_path : Option Value → Option Text
extract_write_path input = path_text (
    or_value (get (codes "file_path") (input_fields input))
      (get (codes "notebook_path") (input_fields input)))

-- The host: its paths, its digest and its working directory. `relative cwd file` is
-- `path.relative(path.resolve(cwd), path.resolve(cwd, file))`, and `digest base file` the SHA-256 of
-- `path.resolve(base, file)` in hexadecimal digits.
pub record Host : Type 0 where
  pub is_absolute : Text → Bool
  pub relative : Text → Text → Text
  pub digest : Text → Text → Text
  pub cwd : Text
  pub stable_digest : List ℕ → Text

abbrev pub filled : Option Text → Option Text
filled none = none
filled (some t) = if is_empty t then none else some t

module _ (host : Host) where
  abbrev is_inside : Option Text → Option Text → Bool
  is_inside none cwd = false
  is_inside (some file) none = false
  is_inside (some file) (some cwd) =
      not (starts_with (codes "..") (host.relative cwd file))
      && not (host.is_absolute (host.relative cwd file))

  unfoldable pub is_inside_cwd : Option Text → Option Text → Bool
  is_inside_cwd file cwd = is_inside (filled file) (filled cwd)

  abbrev is_workspace : Option Text → Option Text → Bool
  is_workspace none cwd = true
  is_workspace (some file) cwd =
      if host.is_absolute file then is_inside_cwd (some file) cwd else true

  unfoldable pub is_workspace_write_path : Option Text → Option Text → Bool
  is_workspace_write_path file cwd = is_workspace (filled file) cwd

  abbrev text_or : Option Text → Text → Text
  text_or none t = t
  text_or (some s) t = s

  unfoldable pub write_path_signature : Option Text → Option Text → Text
  write_path_signature file cwd = host.digest (text_or (filled cwd) host.cwd) (text_or file [])
