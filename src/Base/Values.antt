-- ===== src/Base/Values.antt =====
-- The values that JSON.parse returns, and the coercions that the source applies to them. A field
-- that is absent is `undefined`: the value `none` of `Option Json`.
use Prim.Native.String.{String}
use mathlib.Core.Bool.{Bool, true, false, not}
use mathlib.Core.Option.{Option, none, some}
use mathlib.Core.List.{[], ◌++◌}
use lijox.Base.Tests.{if◌then◌else◌}
use lijox.Base.Texts.{Text, Bytes, codes, text_eq}
use lijox.Base.Numbers.{Number, fin, nan, num, num_eq, number_string}

mutual
  pub data Json : Type 0 where
    null : Json
    bool : Bool → Json
    number : Number → Json
    str : Text → Json
    arr : Items → Json
    obj : Fields → Json

  pub data Items : Type 0 where
    nil : Items
    cons : Json → Items → Items

  pub data Fields : Type 0 where
    end : Fields
    field : Text → Json → Fields → Fields

unfoldable pub lookup_field : Text → Fields → Option Json
lookup_field k end = none
lookup_field k (field j v fs) = if text_eq j k then some v else lookup_field k fs

-- v.name on a value that is not null; the names that the source reads are no methods
unfoldable pub get_field : String → Json → Option Json
unfolding lookup_field
get_field name (obj fs) = lookup_field (codes name) fs
get_field name _ = none

abbrev pub is_null : Json → Bool
is_null null = true
is_null _ = false

-- the truth value of a value that may be undefined
abbrev pub truthy : Option Json → Bool
truthy none = false
truthy (some null) = false
truthy (some (bool b)) = b
truthy (some (number nan)) = false
truthy (some (number n)) = not (num_eq n (num 0))
truthy (some (str [])) = false
truthy (some _) = true

-- String(v): an array is its elements joined by commas, null and undefined elements empty
unfoldable mutual
  pub json_string : Json → Text
  json_string null = codes "null"
  json_string (bool b) = if b then codes "true" else codes "false"
  json_string (number n) = number_string n
  json_string (str s) = s
  json_string (arr xs) = join_items xs
  json_string (obj fs) = codes "[object Object]"

  join_items : Items → Text
  join_items nil = []
  join_items (cons x nil) = item_string x
  join_items (cons x (cons y ys)) = item_string x ++ codes "," ++ join_items (cons y ys)

  item_string : Json → Text
  item_string null = []
  item_string (bool b) = if b then codes "true" else codes "false"
  item_string (number n) = number_string n
  item_string (str s) = s
  item_string (arr xs) = join_items xs
  item_string (obj fs) = codes "[object Object]"

-- A stored value, as JSON.parse sees it: the text of a JSON value, or bytes that are no JSON text.
pub data Stored : Type 0 where
  doc : Json → Stored
  raw : Bytes → Stored

-- JSON.parse of what is stored; `none` is its SyntaxError
abbrev pub json_parse : Stored → Option Json
json_parse (doc j) = some j
json_parse (raw b) = none

-- JSON.parse (JSON.stringify v): a number that is not finite becomes null
abbrev finite_or_null : Number → Json
finite_or_null (fin z) = number (fin z)
finite_or_null _ = null

unfoldable mutual
  pub as_stored : Json → Json
  as_stored null = null
  as_stored (bool b) = bool b
  as_stored (number n) = finite_or_null n
  as_stored (str s) = str s
  as_stored (arr xs) = arr (stored_items xs)
  as_stored (obj fs) = obj (stored_fields fs)

  pub stored_items : Items → Items
  stored_items nil = nil
  stored_items (cons x xs) = cons (as_stored x) (stored_items xs)

  pub stored_fields : Fields → Fields
  stored_fields end = end
  stored_fields (field k v fs) = field k (as_stored v) (stored_fields fs)
