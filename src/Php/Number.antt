-- ===== src/Php/Number.antt =====
-- `(int)` of a text: white space, a sign, the longest numeric prefix, which may have a fraction and
-- an exponent, cut towards 0 and held in the range of an `int`. PHP reads a prefix with a fraction or
-- an exponent through a float; here it is read exactly.
use Prim.Native.Char.{Char, code}
use Prim.Native.String
use t3api.Base.{
  zero, suc, ◌%◌, ◌==◌, true, ℕ, ◌+◌, ◌-◌, ◌*◌, ◌/◌, ◌^◌, String, Bool, true, false, ◌&&◌, ◌||◌,
  leb, ltb, eqb, if◌then◌else◌, ◌≡◌, refl,
}
use t3api.Base.Int.{ℤ, pos, negsuc, sub_ℕ, saturate}

abbrev is_digit : Char → Bool
is_digit c = leb b'0' (code c) && leb (code c) b'9'

abbrev is_space : Char → Bool
is_space c = eqb (code c) 32 || (leb 9 (code c) && leb (code c) 13)

skip_space : String → String
skip_space String.[] = String.[]
skip_space (String.◌∷◌ c s) = let rest = skip_space s in if is_space c then rest else String.◌∷◌ c s

-- The digits in front of a text: their value on top of `n`, how many there are, and the rest.
record Digits : Type 0 where
  value : ℕ
  many : ℕ
  rest : String

digits : ℕ → ℕ → String → Digits
digits n k String.[] = record { value = n; many = k; rest = String.[] }
digits n k (String.◌∷◌ c s) =
    let more = digits (n * 10 + (code c - b'0')) (k + 1) s in
    if is_digit c then more else record { value = n; many = k; rest = String.◌∷◌ c s }

-- The value of `value` tenths to the power `places`, times ten to `exponent`, cut towards 0; an
-- exponent above 400 exceeds every `int` as 400 does, unless the value is 0.
abbrev scale : ℕ → ℕ → ℕ → Bool → ℕ
scale value places exponent true = value / 10 ^ (places + exponent)
scale value places exponent false =
    let e = if ltb (places + 400) exponent then places + 400 else exponent in
    if leb places e then value * 10 ^ (e - places) else value / 10 ^ (places - e)

-- After the digits and the fraction: an exponent, if a digit follows `e` and its sign.
exponent_digits : ℕ → ℕ → Bool → Digits → ℕ
exponent_digits value places negative d =
    if eqb d.many 0 then value / 10 ^ places else scale value places d.value negative

exponent_sign : ℕ → ℕ → String → ℕ
exponent_sign value places String.[] = value / 10 ^ places
exponent_sign value places (String.◌∷◌ c s) =
    if eqb (code c) b'-'
    then exponent_digits value places true (digits 0 0 s)
    else if eqb (code c) b'+'
    then exponent_digits value places false (digits 0 0 s)
    else exponent_digits value places false (digits 0 0 (String.◌∷◌ c s))

exponent : ℕ → ℕ → String → ℕ
exponent value places String.[] = value / 10 ^ places
exponent value places (String.◌∷◌ c s) =
    if eqb (code c) b'e' || eqb (code c) b'E'
    then exponent_sign value places s
    else value / 10 ^ places

-- A number needs a digit before the dot or after it.
after_dot : ℕ → Digits → ℕ
after_dot many d = if eqb (many + d.many) 0 then 0 else exponent d.value d.many d.rest

fraction : Digits → String → ℕ
fraction d String.[] = d.value
fraction d (String.◌∷◌ c s) =
    if eqb (code c) b'.'
    then after_dot d.many (digits d.value 0 s)
    else if eqb d.many 0
    then 0
    else exponent d.value 0 d.rest

magnitude : String → ℕ
magnitude s = let d = digits 0 0 s in fraction d d.rest

signed : String → ℤ
signed String.[] = pos 0
signed (String.◌∷◌ c s) =
    if eqb (code c) b'-'
    then sub_ℕ 0 (magnitude s)
    else if eqb (code c) b'+'
    then pos (magnitude s)
    else pos (magnitude (String.◌∷◌ c s))

unfoldable pub int_of_text : String → ℤ
unfolding skip_space digits exponent_digits exponent_sign exponent after_dot fraction magnitude
    signed
int_of_text s = saturate (signed (skip_space s))

-- The white space and NUL that `filter_var` and `trim` cut off.
abbrev is_trimmed : Char → Bool
is_trimmed c =
    eqb (code c) 32
    || eqb (code c) 9
    || eqb (code c) 10
    || eqb (code c) 13
    || eqb (code c) 11
    || eqb (code c) 0

ltrim : String → String
ltrim String.[] = String.[]
ltrim (String.◌∷◌ c s) = let rest = ltrim s in if is_trimmed c then rest else String.◌∷◌ c s

rtrim : String → String
rtrim String.[] = String.[]
rtrim (String.◌∷◌ c s) = elim (rtrim s) [
  | String.[] ↦ if is_trimmed c then String.[] else String.◌∷◌ c String.[]
  | String.◌∷◌ d t ↦ String.◌∷◌ c (String.◌∷◌ d t)
]

unfoldable pub trim : String → String
unfolding ltrim rtrim
trim s = rtrim (ltrim s)

-- `(string)$n` of a number below ten to the power `fuel`
decimal_digits : ℕ → ℕ → String → String
decimal_digits zero n acc = acc
decimal_digits (suc fuel) n acc =
    let d = n % 10 in
    let text = String.◌++◌ (String.slice "0123456789" d (d + 1)) acc in
    let rest = decimal_digits fuel (n / 10) text in if ltb n 10 then text else rest

-- An `int` has at most 19 digits.
unfoldable pub decimal : ℕ → String
unfolding decimal_digits
decimal n = decimal_digits 20 n ""

unfoldable pub text_of_int : ℤ → String
unfolding decimal
text_of_int (pos n) = decimal n
text_of_int (negsuc n) = String.◌++◌ "-" (decimal (suc n))

-- Whether PHP keeps a key with this text as an `int`: a decimal number with no sign but `-`, no
-- leading 0, and in range.
unfoldable pub is_int_key : String → Bool
unfolding int_of_text text_of_int
is_int_key s = text_of_int (int_of_text s) == s

number_tests :
    (int_of_text "42" ≡ pos 42)
    × (int_of_text "-5" ≡ negsuc 4)
    × (int_of_text "abc" ≡ pos 0)
    × (int_of_text "1e3" ≡ pos 1000)
    × (int_of_text ".5e1" ≡ pos 5)
    × (int_of_text "12e" ≡ pos 12)
    × (int_of_text "99999999999999999999" ≡ pos 9223372036854775807)
    × (trim " a b\n" ≡ "a b")
    × (text_of_int (negsuc 41) ≡ "-42")
    × (is_int_key "10" ≡ true)
    × (is_int_key "010" ≡ false)
unfolding int_of_text trim text_of_int is_int_key
number_tests = (refl, refl, refl, refl, refl, refl, refl, refl, refl, refl, refl)
