-- ===== src/Json.antt =====
-- `serde_json::Value`, with the accessors that the gateway calls on it.
use ilink_gateway.Prelude.{Bool, Option, none, some, List, [], ◌∷◌, if◌then◌else◌, ℤ}
use ilink_gateway.Text.{Text, ◌==◌}

mutual
  pub data Json : Type 0 where
    null : Json
    bool : Bool → Json
    -- A number that is an i64, and one that is none.
    int : ℤ → Json
    real : Text → Json
    str : Text → Json
    array : Items → Json
    object : Members → Json

  pub data Items : Type 0 where
    nil : Items
    cons : Json → Items → Items

  pub data Members : Type 0 where
    end : Members
    member : Text → Json → Members → Members

unfoldable pub find_member : Text → Members → Option Json
find_member k end = none
find_member k (member j v ms) = if j == k then some v else find_member k ms

-- `Value::get` at a text: none, unless the value is an object.
unfoldable pub get : Text → Json → Option Json
unfolding find_member
get k (object ms) = find_member k ms
get k _ = none

unfoldable pub as_str : Json → Option Text
as_str (str t) = some t
as_str _ = none

unfoldable pub as_i64 : Json → Option ℤ
as_i64 (int n) = some n
as_i64 _ = none

-- The texts of an array, in order: what is no text is left out.
unfoldable pub texts_of : Items → List Text
texts_of nil = []
texts_of (cons (str t) xs) = t ∷ texts_of xs
texts_of (cons _ xs) = texts_of xs

-- `value.as_array().map(|arr| arr.iter().filter_map(..)).unwrap_or_default()`
unfoldable pub text_array : Json → List Text
unfolding texts_of
text_array (array xs) = texts_of xs
text_array _ = []

-- `value.get(k).and_then(|v| v.as_str())`
unfoldable pub get_str : Text → Json → Option Text
unfolding get as_str
get_str k v = elim (get k v) [ none ↦ none | some w ↦ as_str w ]
