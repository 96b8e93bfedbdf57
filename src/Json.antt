-- ===== src/Json.antt =====
-- The values of `JSON.parse`, as enhancements/0001-zigbee-ember/src/RadioStore.mts inspects them.
use homey_shs_enhanced.Prelude.{
  text_eq, ltb, text, Text, ℕ, Bool, [], zero, suc, true, false, ◌/◌, ◌%◌, ◌+◌, ◌++◌, ◌∷◌,
  if◌then◌else◌,
}

mutual
  pub data Value : Type 0 where
    undefined_value null_value : Value
    bool_value : Bool → Value
    int_value : ℕ → Value
    -- A number that is negative or no integer, with its `String(...)`.
    other_number : Text → Value
    str_value : Text → Value
    arr_value : Items → Value
    obj_value : Fields → Value

  pub data Items : Type 0 where
    nil : Items
    cons : Value → Items → Items

  pub data Fields : Type 0 where
    end : Fields
    field : Text → Value → Fields → Fields

-- The property `key` of an object.
unfoldable pub get_field : Text → Fields → Value
get_field key end = undefined_value
get_field key (field k v fs) = if text_eq k key then v else get_field key fs

-- `value[key]`, for a value that is an object; an array has none of the names that are read.
unfoldable pub property : Value → Text → Value
unfolding get_field
property (obj_value fs) key = get_field key fs
property (arr_value _) key = undefined_value
property _ key = undefined_value

decimal_from : ℕ → ℕ → Text → Text
decimal_from zero n acc = acc
decimal_from (suc fuel) n acc =
    let digits = (b'0' + n % 10) ∷ acc in
    let more = decimal_from fuel (n / 10) digits in if ltb n 10 then digits else more

-- `String(n)`, for an integer below 10^21.
unfoldable pub decimal : ℕ → Text
unfolding decimal_from
decimal n = decimal_from (suc n) n []

unfoldable mutual
  unfolding text decimal

  -- `String(value)`: an array joins its elements by commas, and writes nothing for `null`.
  pub string_of : Value → Text
  string_of undefined_value = text "undefined"
  string_of null_value = text "null"
  string_of (bool_value true) = text "true"
  string_of (bool_value false) = text "false"
  string_of (int_value n) = decimal n
  string_of (other_number t) = t
  string_of (str_value t) = t
  string_of (arr_value xs) = string_of_items xs
  string_of (obj_value _) = text "[object Object]"

  pub string_of_items : Items → Text
  string_of_items nil = []
  string_of_items (cons x nil) = string_of_item x
  string_of_items (cons x (cons y ys)) = string_of_item x ++ (b',' ∷ string_of_items (cons y ys))

  pub string_of_item : Value → Text
  string_of_item undefined_value = []
  string_of_item null_value = []
  string_of_item (bool_value true) = text "true"
  string_of_item (bool_value false) = text "false"
  string_of_item (int_value n) = decimal n
  string_of_item (other_number t) = t
  string_of_item (str_value t) = t
  string_of_item (arr_value xs) = string_of_items xs
  string_of_item (obj_value _) = text "[object Object]"
