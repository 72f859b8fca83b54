-- ===== src/Json.antt =====
-- Values of JSON as `json.loads` of Python gives them, and the operations on them that raise.
use filmoteka.Prelude.{
  String, Bool, true, false, not, Option, none, some, ℤ, pos, List, [], ◌∷◌, ◌==◌, str_eq,
  if◌then◌else◌,
}

pub data Error : Type 0 where
  key_error index_error type_error json_error attribute_error value_error recursion_error : Error
  overflow_error unbound_local : Error

-- A value, or an exception.
pub data Result {ℓ} (A : Type ℓ) : Type ℓ where
  value : A → Result A
  raises : Error → Result A

infixl 5 ◌>>=◌
abbrev pub ◌>>=◌ {ℓ κ} : {A : Type ℓ} {B : Type κ} → Result A → (A → Result B) → Result B
value a >>= f = f a
raises e >>= f = raises e

-- What `int` makes of a float; `int` of an infinite one is an OverflowError, and of NaN a ValueError.
pub data Truncated : Type 0 where
  truncated : ℤ → Truncated
  infinite not_a_number : Truncated

mutual
  -- A float says whether it is other than zero.
  pub data Json : Type 0 where
    null : Json
    bool : Bool → Json
    integer : ℤ → Json
    real : Bool → Truncated → Json
    str : String → Json
    array : Values → Json
    object : Fields → Json

  pub data Values : Type 0 where
    end : Values
    item_then : Json → Values → Values

  -- The items of a dict, whose keys differ.
  pub data Fields : Type 0 where
    done : Fields
    field_then : String → Json → Fields → Fields

-- What `json.loads` makes of a text: a value, or a JSONDecodeError, the ValueError of an integer with too many digits, or the
-- RecursionError of a text that is nested too deeply.
pub data Loaded : Type 0 where
  document : Json → Loaded
  no_json too_many_digits too_deep : Loaded

-- `json.loads`
abbrev pub Loads : Type 0
Loads = String → Loaded

abbrev pub loaded : Loaded → Result Json
loaded (document data_of) = value data_of
loaded no_json = raises json_error
loaded too_many_digits = raises value_error
loaded too_deep = raises recursion_error

-- `if x`
abbrev pub truthy : Json → Bool
truthy null = false
truthy (bool b) = b
truthy (integer (pos n)) = not (n == 0)
truthy (integer (ℤ.negsuc n)) = true
truthy (real other _) = other
truthy (str s) = not (str_eq s "")
truthy (array end) = false
truthy (array (item_then _ _)) = true
truthy (object done) = false
truthy (object (field_then _ _ _)) = true

unfoldable pub lookup : String → Fields → Option Json
lookup key done = none
lookup key (field_then k v fields) =
    let later = lookup key fields in if str_eq k key then some v else later

abbrev found_or : Json → Option Json → Json
found_or default none = default
found_or default (some v) = v

-- `x.get(key, default)`
unfoldable pub get_or : Json → String → Json → Result Json
unfolding lookup
get_or (object fields) key default = value (found_or default (lookup key fields))
get_or _ key default = raises attribute_error

abbrev found : Option Json → Result Json
found none = raises key_error
found (some v) = value v

-- `x[key]`
unfoldable pub item : Json → String → Result Json
unfolding lookup
item (object fields) key = found (lookup key fields)
item _ key = raises type_error

-- `x[0]`
unfoldable pub first_item : Json → Result Json
first_item (array end) = raises index_error
first_item (array (item_then v _)) = value v
first_item (str String.[]) = raises index_error
first_item (str (String.◌∷◌ c s)) = value (str (String.◌∷◌ c ""))
first_item (object _) = raises key_error
first_item _ = raises type_error

-- A value whose methods of text are called.
unfoldable pub as_text : Json → Result String
as_text (str s) = value s
as_text _ = raises attribute_error

abbrev pub values : Values → List Json
values end = []
values (item_then v vs) = v ∷ values vs
