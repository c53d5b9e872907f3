-- ===== src/Base/Text.antt =====
-- The functions of PHP on texts that the code calls. A text is walked by its characters; the case
-- functions change the letters a to z only, as those of PHP 8 do.
use Prim.Native.Char.{Char, code}
use Prim.Native.String
use Prim.Native.Nat.{ℕ, zero, suc}
use Prim.Native.String.{String}
use mathlib.Core.Path.{◌≡◌, refl}
use mathlib.Core.Bool.{Bool, true, false, ◌||◌, ◌&&◌}
use mathlib.Core.List.{List, [], ◌∷◌}
use text.Mathlib.Text.{◌==◌}
use t3api.Base.Tests.{eqb, if◌then◌else◌}

-- `$a . $b . $c`
abbrev pub concat : List String → String
concat [] = ""
concat (s ∷ []) = s
concat (s ∷ t ∷ rest) = String.◌++◌ s (concat (t ∷ rest))

-- `implode($glue, $parts)`
unfoldable pub implode : String → List String → String
implode glue [] = ""
implode glue (s ∷ []) = s
implode glue (s ∷ t ∷ rest) = concat (s ∷ glue ∷ implode glue (t ∷ rest) ∷ [])

-- the character that stands in the second text where `c` stands in the first
translate : String → String → Char → Char
translate String.[] to c = c
translate (String.◌∷◌ d from) String.[] c = c
translate (String.◌∷◌ d from) (String.◌∷◌ e to) c =
    if eqb (code d) (code c) then e else translate from to c

abbrev pub map_chars : (Char → Char) → String → String
map_chars f String.[] = String.[]
map_chars f (String.◌∷◌ c s) = String.◌∷◌ (f c) (map_chars f s)

unfoldable pub strtoupper : String → String
unfolding translate
strtoupper = map_chars (translate "abcdefghijklmnopqrstuvwxyz" "ABCDEFGHIJKLMNOPQRSTUVWXYZ")

unfoldable pub strtolower : String → String
unfolding translate
strtolower = map_chars (translate "ABCDEFGHIJKLMNOPQRSTUVWXYZ" "abcdefghijklmnopqrstuvwxyz")

-- `str_replace('.', '_', $s)`
unfoldable pub dots_to_underscores : String → String
unfolding translate
dots_to_underscores = map_chars (translate "." "_")

-- `str_replace('\\', '.', $s)`
unfoldable pub backslashes_to_dots : String → String
unfolding translate
backslashes_to_dots = map_chars (translate "\\" ".")

-- The pieces between the dots of a text; `cur` is the piece read so far.
split_dots : String → String → List String
split_dots cur String.[] = cur ∷ []
split_dots cur (String.◌∷◌ c s) =
    let closed = cur ∷ split_dots "" s in
    let longer = split_dots (String.◌++◌ cur (String.◌∷◌ c String.[])) s in
    if eqb (code c) b'.' then closed else longer

-- `explode('.', $s)`
unfoldable pub explode_dots : String → List String
unfolding split_dots
explode_dots = split_dots ""

-- The pieces between the `..` of a text, read from the left; `held` says that a dot has been read
-- and may be the first of two.
split_ranges : Bool → String → String → List String
split_ranges false cur String.[] = cur ∷ []
split_ranges true cur String.[] = String.◌++◌ cur "." ∷ []
split_ranges held cur (String.◌∷◌ c s) =
    let closed = cur ∷ split_ranges false "" s in
    let hold = split_ranges true cur s in
    let dotted =
      split_ranges false (String.◌++◌ cur (String.◌++◌ "." (String.◌∷◌ c String.[]))) s in
    let longer = split_ranges false (String.◌++◌ cur (String.◌∷◌ c String.[])) s in
    if eqb (code c) b'.' then if held then closed else hold else if held then dotted else longer

-- `explode('..', $s)`
unfoldable pub explode_range : String → List String
unfolding split_ranges
explode_range = split_ranges false ""

-- The pieces between the commas of a text; spaces right after a comma are dropped. `start` says that
-- only those have been read since the comma.
split_commas : Bool → String → String → List String
split_commas start cur String.[] = cur ∷ []
split_commas start cur (String.◌∷◌ c s) =
    let closed = cur ∷ split_commas true "" s in
    let skipped = split_commas true "" s in
    let longer = split_commas false (String.◌++◌ cur (String.◌∷◌ c String.[])) s in
    if eqb (code c) b',' then closed else if start && eqb (code c) 32 then skipped else longer

-- `preg_split('{, *}', $s)`
unfoldable pub split_list : String → List String
unfolding split_commas
split_list = split_commas false ""

-- `in_array($s, $list, true)` on texts
abbrev pub in_array : String → List String → Bool
in_array s [] = false
in_array s (t ∷ rest) = t == s || in_array s rest

-- `str_starts_with($s, $t)`
abbrev pub str_starts_with : String → String → Bool
str_starts_with s String.[] = true
str_starts_with String.[] (String.◌∷◌ d t) = false
str_starts_with (String.◌∷◌ c s) (String.◌∷◌ d t) =
    let rest = str_starts_with s t in if eqb (code c) (code d) then rest else false

-- `str_contains($s, $t)`
unfoldable pub str_contains : String → String → Bool
str_contains String.[] t = str_starts_with "" t
str_contains (String.◌∷◌ c s) t = str_starts_with (String.◌∷◌ c s) t || str_contains s t

-- `substr($s, $n)`
abbrev pub substr : String → ℕ → String
substr s zero = s
substr String.[] (suc n) = String.[]
substr (String.◌∷◌ c s) (suc n) = substr s n

-- `lcfirst($s)`
unfoldable pub lcfirst : String → String
unfolding strtolower
lcfirst String.[] = String.[]
lcfirst (String.◌∷◌ c s) = String.◌++◌ (strtolower (String.◌∷◌ c String.[])) s

case_tests :
    (lcfirst (substr "getName" 3) ≡ "name")
    × (strtoupper "Patch-1" ≡ "PATCH-1")
    × (strtolower "X-Locale" ≡ "x-locale")
    × (dots_to_underscores "a.b.c" ≡ "a_b_c")
    × (backslashes_to_dots "A\\B" ≡ "A.B")
    × (explode_dots "a.bc." ≡ "a" ∷ "bc" ∷ "" ∷ [])
    × (explode_range "1.5..7." ≡ "1.5" ∷ "7." ∷ [])
    × (split_list " a,  b,c " ≡ " a" ∷ "b" ∷ "c " ∷ [])
    × (implode ", " ("GET" ∷ "PUT" ∷ []) ≡ "GET, PUT")
unfolding lcfirst strtoupper strtolower dots_to_underscores backslashes_to_dots explode_dots
    explode_range split_list implode
case_tests = (refl, refl, refl, refl, refl, refl, refl, refl, refl)
