-- ===== src/Json.antt =====
-- packages/core/src/llm.ts, lines 73 to 102: JSON values, their canonical form and its text.
-- A number is held as the text that JSON gives it. An object is its own enumerable fields, with
-- distinct keys, none an array index; a `toJSON` method has been applied already. Keys are compared by
-- code points.
pub mod Print
use Prim.Native.String.{compare}
use text.Mathlib.Text.{is_lt}
use karya_kram.Base.{String, Bool, true, false, if◌then◌else◌}

mutual
  pub data Fields : Type 0 where
    end : Fields
    field : String → Value → Fields → Fields

  pub data Value : Type 0 where
    num str : String → Value
    obj : Fields → Value
    arr : Items → Value
    bool : Bool → Value
    undefined null : Value

  pub data Items : Type 0 where
    nil : Items
    cons : Value → Items → Items

abbrev pub is_undefined : Value → Bool
is_undefined undefined = true
is_undefined _ = false

-- `item === undefined ? null : item`
abbrev pub null_if_undefined : Value → Value
null_if_undefined undefined = null
null_if_undefined v = v

abbrev pub key_lt : String → String → Bool
key_lt k j = is_lt (compare k j)

-- A field added to an object whose keys are sorted.
unfoldable pub insert_field : String → Value → Fields → Fields
insert_field k v end = field k v end
insert_field k v (field j w m) =
    let rest = insert_field k v m in if key_lt k j then field k v (field j w m) else field j w rest

-- Keys are sorted recursively, `undefined` is dropped from objects and is `null` in arrays.
unfoldable mutual
  unfolding insert_field

  pub canonicalize : Value → Value
  canonicalize (arr xs) = arr (canonicalize_items xs)
  canonicalize (obj fs) = obj (canonicalize_fields fs)
  canonicalize undefined = undefined
  canonicalize null = null
  canonicalize (bool b) = bool b
  canonicalize (num n) = num n
  canonicalize (str s) = str s

  pub canonicalize_items : Items → Items
  canonicalize_items nil = nil
  canonicalize_items (cons x xs) = cons (null_if_undefined (canonicalize x)) (canonicalize_items xs)

  pub canonicalize_fields : Fields → Fields
  canonicalize_fields end = end
  canonicalize_fields (field k v fs) =
      let rest = canonicalize_fields fs in
      let w = canonicalize v in if is_undefined v then rest else insert_field k w rest
