-- ===== src/Php.antt =====
-- The values of PHP that requests and annotations carry, and the casts that the code applies.
-- A key is its text: PHP keeps a key that is a decimal number as an `int`, and no two keys of one
-- array have the same text. Floats do not occur: query parameters are texts and arrays.
pub mod Number
pub mod Numeric
use t3api.Base.{
  ℕ, String, Bool, true, false, not, ◌&&◌, ◌||◌, Option, none, some, List, [], ◌∷◌, ◌==◌,
  if◌then◌else◌, ◌≡◌, refl,
}
use t3api.Base.Int.{ℤ, pos, negsuc, eqb_ℤ}
use t3api.Base.Text.{strtolower, in_array}
use Number.{int_of_text, trim, text_of_int}
use t3api.Result.{Result, ok, thrown}
use t3api.Exception.{type_error}

mutual
  pub data Value : Type 0 where
    null : Value
    bool : Bool → Value
    int : ℤ → Value
    str : String → Value
    arr : Entries → Value

  -- The entries of an array, in the order of the array.
  pub data Entries : Type 0 where
    end : Entries
    entry : String → Value → Entries → Entries

abbrev pub Fields : Type 0
Fields = List (String × Value)

abbrev pub fields : Entries → Fields
fields end = []
fields (entry k v rest) = (k, v) ∷ fields rest

-- `(bool)$v`
unfoldable pub to_bool : Value → Bool
to_bool null = false
to_bool (bool b) = b
to_bool (int z) = not (eqb_ℤ z (pos 0))
to_bool (str s) = not (s == "" || s == "0")
to_bool (arr end) = false
to_bool (arr (entry _ _ _)) = true

-- `(int)$v`
unfoldable pub to_int : Value → ℤ
unfolding int_of_text
to_int null = pos 0
to_int (bool false) = pos 0
to_int (bool true) = pos 1
to_int (int z) = z
to_int (str s) = int_of_text s
to_int (arr end) = pos 0
to_int (arr (entry _ _ _)) = pos 1

-- `ParameterUtility::toBoolean`: `filter_var($v, FILTER_VALIDATE_BOOLEAN)`
unfoldable pub to_boolean : Value → Bool
unfolding strtolower trim
to_boolean null = false
to_boolean (bool b) = b
to_boolean (int z) = eqb_ℤ z (pos 1)
to_boolean (str s) = in_array (strtolower (trim s)) ("1" ∷ "true" ∷ "on" ∷ "yes" ∷ [])
to_boolean (arr _) = false

-- A value given to a typed property or parameter `string`, under `strict_types`.
abbrev pub need_string : Value → Result String
need_string (str s) = ok s
need_string _ = thrown type_error

-- `$fields[$key] ?? null`, with a stored `null` as PHP's `??` and `isset` read it
abbrev pub known : Value → Option Value
known null = none
known v = some v

unfoldable pub get : String → Fields → Option Value
get key [] = none
get key ((k, v) ∷ rest) = if k == key then known v else get key rest

-- `(array)$v` for a list of values, with its keys
abbrev pub to_array : Value → Fields
to_array (arr es) = fields es
to_array null = []
to_array v = ("0", v) ∷ []

-- `(string)$v`
unfoldable pub to_text : Value → String
unfolding text_of_int
to_text null = ""
to_text (bool true) = "1"
to_text (bool false) = ""
to_text (int z) = text_of_int z
to_text (str s) = s
to_text (arr _) = "Array"

cast_tests :
    (to_int (str " -12abc") ≡ negsuc 11)
    × (to_int (str "1.9e1") ≡ pos 19)
    × (to_bool (str "0") ≡ false)
    × (to_boolean (str " Yes ") ≡ true)
    × (to_boolean (str "2") ≡ false)
unfolding to_int to_bool to_boolean
cast_tests = (refl, refl, refl, refl, refl)
