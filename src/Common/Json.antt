-- ===== src/Common/Json.antt =====
-- Parsed JSON.
use claude_code_fusion.Common.Tests.{if◌then◌else◌}
use claude_code_fusion.Common.Text.{Text, text_eq}
use Prim.Native.Nat.{ℕ}
use mathlib.Core.Bool.{Bool}
use mathlib.Core.Option.{Option, none, some}

-- A parsed JSON value. Of a number only whether it is 0 matters.
mutual
  pub data Value : Type 0 where
    string : Text → Value
    object : Fields → Value
    array : Values → Value
    boolean : Bool → Value
    number : ℕ → Value
    null : Value

  pub data Fields : Type 0 where
    field : Text → Value → Fields → Fields
    end : Fields

  pub data Values : Type 0 where
    none_left : Values
    and_more : Value → Values → Values

-- `object[key]`; `none` is undefined.
unfoldable pub get : Text → Fields → Option Value
get k end = none
get k (field j v fs) = if text_eq j k then some v else get k fs
