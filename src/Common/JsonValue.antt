-- ===== src/Common/JsonValue.antt =====
-- Parsed JSON, as `JSON.parse` returns it: what the code calls `unknown`.
use Prim.Native.String.{String}
use mathlib.Core.Bool.{Bool}
use mathlib.Core.Option.{Option, none, some}
use mealdirectbackend.Common.Tests.{str_eq, if◌then◌else◌}
use mealdirectbackend.Common.Number.{Num}

mutual
  pub data Json : Type 0 where
    null : Json
    boolean : Bool → Json
    number : Num → Json
    str : String → Json
    arr : Items → Json
    obj : Fields → Json

  pub data Items : Type 0 where
    nil : Items
    cons : Json → Items → Items

  pub data Fields : Type 0 where
    end : Fields
    field : String → Json → Fields → Fields

-- `o[key]`, none for undefined.
abbrev pub field_of : Fields → String → Option Json
field_of end key = none
field_of (field k v rest) key = if str_eq k key then some v else field_of rest key
