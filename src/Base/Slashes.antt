-- ===== src/Base/Slashes.antt =====
-- The trimming functions of PHP with the character `/`.
use Prim.Native.Char.{Char, code}
use Prim.Native.String.{String}
use mathlib.Core.Path.{◌≡◌, refl}
use mathlib.Core.Bool.{Bool, false}
use mathlib.Core.Logic.{inl, inr}
use t3api.Base.Tests.{eqb, if◌then◌else◌, Bool-cases}

-- `ltrim($s, '/')`
unfoldable pub ltrim_slashes : String → String
ltrim_slashes String.[] = String.[]
ltrim_slashes (String.◌∷◌ c s) =
    let rest = ltrim_slashes s in if eqb (code c) b'/' then rest else String.◌∷◌ c s

-- a character before a text that has been trimmed at its end
abbrev before_trimmed : Char → String → String
before_trimmed c String.[] = if eqb (code c) b'/' then String.[] else String.◌∷◌ c String.[]
before_trimmed c (String.◌∷◌ d t) = String.◌∷◌ c (String.◌∷◌ d t)

-- `rtrim($s, '/')`
unfoldable pub rtrim_slashes : String → String
rtrim_slashes String.[] = String.[]
rtrim_slashes (String.◌∷◌ c s) = before_trimmed c (rtrim_slashes s)

-- `trim($s, '/')`
unfoldable pub trim_slashes : String → String
trim_slashes s = rtrim_slashes (ltrim_slashes s)

abbrev pub begins_with_slash : String → Bool
begins_with_slash String.[] = false
begins_with_slash (String.◌∷◌ c s) = eqb (code c) b'/'

abbrev pub ends_with_slash : String → Bool
ends_with_slash String.[] = false
ends_with_slash (String.◌∷◌ c String.[]) = eqb (code c) b'/'
ends_with_slash (String.◌∷◌ c (String.◌∷◌ d s)) = ends_with_slash (String.◌∷◌ d s)

begins-ltrim_slashes : (s : String) → begins_with_slash (ltrim_slashes s) ≡ false
unfolding ltrim_slashes
begins-ltrim_slashes String.[] = refl
begins-ltrim_slashes (String.◌∷◌ c s) = elim (Bool-cases (eqb (code c) b'/')) [
  | inl e ↦ rw e (begins-ltrim_slashes s)
  | inr e ↦ rw e e
]

pub ltrim_slashes-unchanged : (s : String) → begins_with_slash s ≡ false → ltrim_slashes s ≡ s
unfolding ltrim_slashes
ltrim_slashes-unchanged String.[] h = refl
ltrim_slashes-unchanged (String.◌∷◌ c s) h = rw h refl

ends-before_trimmed :
    (c : Char) (s : String)
    → ends_with_slash s ≡ false
    → ends_with_slash (before_trimmed c s) ≡ false
ends-before_trimmed c String.[] h = elim (Bool-cases (eqb (code c) b'/')) [
  | inl e ↦ rw e refl
  | inr e ↦ rw e e
]
ends-before_trimmed c (String.◌∷◌ d t) h = h

pub ends-rtrim_slashes : (s : String) → ends_with_slash (rtrim_slashes s) ≡ false
unfolding rtrim_slashes
ends-rtrim_slashes String.[] = refl
ends-rtrim_slashes (String.◌∷◌ c s) = ends-before_trimmed c (rtrim_slashes s) (ends-rtrim_slashes s)

begins-before_trimmed :
    (c : Char) (s : String)
    → eqb (code c) b'/' ≡ false
    → begins_with_slash (before_trimmed c s) ≡ false
begins-before_trimmed c String.[] h = rw h h
begins-before_trimmed c (String.◌∷◌ d t) h = h

begins-rtrim_slashes :
    (s : String) → begins_with_slash s ≡ false → begins_with_slash (rtrim_slashes s) ≡ false
unfolding rtrim_slashes
begins-rtrim_slashes String.[] h = refl
begins-rtrim_slashes (String.◌∷◌ c s) h = begins-before_trimmed c (rtrim_slashes s) h

pub begins-trim_slashes : (s : String) → begins_with_slash (trim_slashes s) ≡ false
unfolding trim_slashes
begins-trim_slashes s = begins-rtrim_slashes (ltrim_slashes s) (begins-ltrim_slashes s)

pub ends-trim_slashes : (s : String) → ends_with_slash (trim_slashes s) ≡ false
unfolding trim_slashes
ends-trim_slashes s = ends-rtrim_slashes (ltrim_slashes s)

slash_tests :
    (trim_slashes "//de/_api/" ≡ "de/_api")
    × (rtrim_slashes "https://example.org//" ≡ "https://example.org")
    × (trim_slashes "//" ≡ "")
unfolding trim_slashes rtrim_slashes ltrim_slashes
slash_tests = (refl, refl, refl)
