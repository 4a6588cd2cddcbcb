-- ===== src/Json/Syntax.antt =====
-- JSON values, and the Go types that encoding/json reads them into.
use gateway_service.Prelude.{Bool, Option, none, List, [], ℤ, pos, false}
use gateway_service.Text.{Str}

-- A JSON text without its white space. Literals and keys stand as they are written, between quotes and
-- with their escapes.
mutual
  pub data Json : Type 0 where
    null : Json
    boolean : Bool → Json
    number : Str → Json
    text : Str → Json
    array : Items → Json
    object : Members → Json

  pub data Items : Type 0 where
    nil : Items
    cons : Json → Items → Items

  pub data Members : Type 0 where
    close : Members
    member : Str → Json → Members → Members

-- A Go type: string, int or int64, bool, json.RawMessage, a pointer, a slice, a struct. A field has its
-- name in JSON and may be `omitempty`.
mutual
  pub data Shape : Type 0 where
    string integer boolean raw : Shape
    pointer slice : Shape → Shape
    struct : Fields → Shape

  pub data Fields : Type 0 where
    end : Fields
    field : Str → Bool → Shape → Fields → Fields

-- A slice with the elements that its array holds behind its length.
pub record Slots (A : Type 0) : Type 0 where
  pub elements : List A
  pub spare : List A

-- The Go values of a type; nil is none.
abbrev mutual
  pub Meaning : Shape → Type 0
  Meaning Shape.string = Str
  Meaning Shape.integer = ℤ
  Meaning Shape.boolean = Bool
  Meaning Shape.raw = Option Json
  Meaning (Shape.pointer s) = Option (Meaning s)
  Meaning (Shape.slice s) = Option (Slots (Meaning s))
  Meaning (Shape.struct fs) = Meanings fs

  pub Meanings : Fields → Type 0
  Meanings Fields.end = Unit
  Meanings (Fields.field name omitempty s fs) = Meaning s × Meanings fs

abbrev mutual
  pub zero_value : (s : Shape) → Meaning s
  zero_value Shape.string = []
  zero_value Shape.integer = pos 0
  zero_value Shape.boolean = false
  zero_value Shape.raw = none
  zero_value (Shape.pointer s) = none
  zero_value (Shape.slice s) = none
  zero_value (Shape.struct fs) = zero_values fs

  pub zero_values : (fs : Fields) → Meanings fs
  zero_values Fields.end = tt
  zero_values (Fields.field name omitempty s fs) = (zero_value s, zero_values fs)
