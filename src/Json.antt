-- ===== src/Json.antt =====
-- Values of a JSON column or a request body (the `unknown` of the source), with the run-time tests
-- that the source makes of them. An object is its list of own properties, the first one counts.
use email_ops_community.Prelude.{
  Bool, false, Option, none, some, List, [], ◌∷◌, String, str_eq, if◌then◌else◌,
}
use email_ops_community.Prelude.Text.{Text}
use email_ops_community.Prelude.Int.{ℤ}

mutual
  pub data Json : Type 0 where
    null : Json
    boolean : Bool → Json
    num : ℤ → Json
    str : Text → Json
    arr : Items → Json
    obj : Fields → Json

  pub data Items : Type 0 where
    nil : Items
    cons : Json → Items → Items

  pub data Fields : Type 0 where
    end : Fields
    field : String → Json → Fields → Fields

-- `obj.key`, with `none` for `undefined`.
unfoldable pub get : String → Fields → Option Json
get key end = none
get key (field k v fs) = if str_eq k key then some v else get key fs

-- The elements of `raw`, if `Array.isArray(raw)`.
abbrev pub as_array : Option Json → Option Items
as_array (some (arr items)) = some items
as_array _ = none

-- The text of `raw`, if `typeof raw === 'string'`.
abbrev pub as_string : Option Json → Option Text
as_string (some (str s)) = some s
as_string _ = none

-- `raw === true`.
abbrev pub is_true : Option Json → Bool
is_true (some (boolean b)) = b
is_true _ = false

-- The string elements of an array, in order.
unfoldable pub strings : Items → List Text
strings nil = []
strings (cons (str s) xs) = s ∷ strings xs
strings (cons _ xs) = strings xs
