-- ===== src/Php/Numeric.antt =====
-- `is_numeric` of PHP 8: a number with an optional sign, fraction and exponent, and white space on
-- either side.
use Prim.Native.Char.{Char, code}
use t3api.Base.{
  String, Bool, true, false, ◌&&◌, ◌||◌, Option, none, some, leb, eqb, if◌then◌else◌, ◌≡◌, refl,
}
use t3api.Php.{Value, int, str}

-- what has been read of the text
pub data Reading : Type 0 where
  start after_sign whole after_point fraction after_e after_e_sign exponent after_number : Reading

-- the kinds of characters
pub data Class : Type 0 where
  digit sign point e_letter white other : Class

class : Char → Class
class c =
    if leb b'0' (code c) && leb (code c) b'9'
    then digit
    else if eqb (code c) b'+' || eqb (code c) b'-'
    then sign
    else if eqb (code c) b'.'
    then point
    else if eqb (code c) b'e' || eqb (code c) b'E'
    then e_letter
    else if eqb (code c) 32 || (leb 9 (code c) && leb (code c) 13)
    then white
    else other

next : Reading → Class → Option Reading
next start white = some start
next start sign = some after_sign
next start digit = some whole
next start point = some after_point
next after_sign digit = some whole
next after_sign point = some after_point
next whole digit = some whole
next whole point = some fraction
next whole e_letter = some after_e
next whole white = some after_number
next after_point digit = some fraction
next fraction digit = some fraction
next fraction e_letter = some after_e
next fraction white = some after_number
next after_e sign = some after_e_sign
next after_e digit = some exponent
next after_e_sign digit = some exponent
next exponent digit = some exponent
next exponent white = some after_number
next after_number white = some after_number
next _ _ = none

accepts : Reading → Bool
accepts whole = true
accepts fraction = true
accepts exponent = true
accepts after_number = true
accepts _ = false

read : Option Reading → String → Bool
read none s = false
read (some r) String.[] = accepts r
read (some r) (String.◌∷◌ c s) = read (next r (class c)) s

unfoldable pub is_numeric : Value → Bool
unfolding read next class accepts
is_numeric (int z) = true
is_numeric (str s) = read (some start) s
is_numeric _ = false

numeric_tests :
    (is_numeric (str " -12.5e3 ") ≡ true)
    × (is_numeric (str "1.") ≡ true)
    × (is_numeric (str ".5") ≡ true)
    × (is_numeric (str ".") ≡ false)
    × (is_numeric (str "") ≡ false)
    × (is_numeric (str "1e") ≡ false)
    × (is_numeric (str "12a") ≡ false)
unfolding is_numeric
numeric_tests = (refl, refl, refl, refl, refl, refl, refl)
