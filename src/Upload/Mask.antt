-- ===== src/Upload/Mask.antt =====
-- The mask of a file name: what `preg_replace_callback` with `/\[([A-Za-z0-9_:]+)\]/` reads in it
-- (Classes/Service/FileUploadService.php, getFilename).
pub mod Roundtrip
use Prim.Native.Char.{Char, code}
use Prim.Native.String
use t3api.Base.{
  ◌≡◌, refl, ℕ, ◌≡◌, String, Bool, ◌&&◌, ◌||◌, not, Option, none, some, List, [], ◌∷◌, ◌++◌, ◌==◌,
  eqb, leb, if◌then◌else◌,
}

-- A part of a mask: a character that stays, or a name between brackets.
pub data Part : Type 0 where
  literal : Char → Part
  placeholder : String → Part

between : ℕ → ℕ → Char → Bool
between low high c = leb low (code c) && leb (code c) high

-- `[A-Za-z0-9_:]`
unfoldable pub is_word : Char → Bool
unfolding between
is_word c = between b'A' b'Z' c || between b'a' b'z' c || between b'0' b':' c || eqb (code c) b'_'

abbrev pub literals : String → List Part
literals String.[] = []
literals (String.◌∷◌ c s) = literal c ∷ literals s

-- The parts of the rest of a mask; `held` is what has been read since a bracket was opened.
unfoldable pub read : Option String → String → List Part
unfolding is_word
read none String.[] = []
read (some run) String.[] = literals (String.◌++◌ "[" run)
read none (String.◌∷◌ c s) =
    let opened = read (some "") s in
    let kept = literal c ∷ read none s in if eqb (code c) b'[' then opened else kept
read (some run) (String.◌∷◌ c s) =
    let longer = read (some (String.◌++◌ run (String.◌∷◌ c String.[]))) s in
    let closed = placeholder run ∷ read none s in
    let opened = literals (String.◌++◌ "[" run) ++ read (some "") s in
    let given_up =
      literals (String.◌++◌ (String.◌++◌ "[" run) (String.◌∷◌ c String.[])) ++ read none s in
    if is_word c
    then longer
    else if eqb (code c) b']' && not (run == "")
    then closed
    else if eqb (code c) b'['
    then opened
    else given_up

-- the parts of a mask
unfoldable pub parse : String → List Part
unfolding read
parse = read none

mask_tests :
    (parse "[filename][extensionWithDot]"
      ≡ placeholder "filename" ∷ placeholder "extensionWithDot" ∷ [])
    × (parse "[[a]" ≡ literals "[" ++ placeholder "a" ∷ [])
    × (parse "[]a[b" ≡ literals "[]a[b")
    × (parse "[a-b]" ≡ literals "[a-b]")
unfolding parse
mask_tests = (refl, refl, refl, refl)
