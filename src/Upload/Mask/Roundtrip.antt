-- ===== src/Upload/Mask/Roundtrip.antt =====
-- The mask of a file name, read in parts and written from parts.
use Prim.Native.Char.{Char, code}
use Prim.Native.String
use text.Mathlib.TextLemmas.{append_assoc, append-nil, cons-append, nil-append}
use text.Mathlib.TextEquality.{Char-path}
use t3api.Base.{
  false, All, ◌≡◌, refl, sym, ap, ◌∙◌, arith, ◌&&◌, not, String, Bool, true, Option, none, some,
  List, [], ◌∷◌, ◌++◌, ◌==◌, eqb, eqb_iff, Bool-cases, inl, inr,
}
use t3api.Upload.Mask.{Part, literal, placeholder, literals, read, parse, is_word}

-- The mask with the given parts.
abbrev pub print : List Part → String
print [] = ""
print (literal c ∷ ps) = String.◌∷◌ c (print ps)
print (placeholder name ∷ ps) = String.◌++◌ "[" (String.◌++◌ name (String.◌++◌ "]" (print ps)))

abbrev held_text : Option String → String
held_text none = ""
held_text (some run) = String.◌++◌ "[" run

print-literals : (s : String) (ps : List Part) → print (literals s ++ ps) ≡ String.◌++◌ s (print ps)
print-literals String.[] ps = sym (nil-append (print ps))
print-literals (String.◌∷◌ c s) ps =
    ap (λ t. String.◌∷◌ c t) (print-literals s ps) ∙ sym (cons-append c s (print ps))

pub single-append :
    (c : Char) (s : String) → String.◌++◌ (String.◌∷◌ c String.[]) s ≡ String.◌∷◌ c s
single-append c s = cons-append c String.[] s ∙ ap (λ t. String.◌∷◌ c t) (nil-append s)

-- a character with the code of another is that character
pub same_char :
    (c d : Char) (s : String)
    → eqb (code c) (code d) ≡ true
    → String.◌∷◌ c s ≡ String.◌++◌ (String.◌∷◌ d String.[]) s
same_char c d s e =
    ap (λ x. String.◌∷◌ x s) (Char-path c d ((eqb_iff (code c) (code d)).0 e))
    ∙ sym (single-append d s)

print-literals_all : (s : String) → print (literals s) ≡ s
print-literals_all String.[] = refl
print-literals_all (String.◌∷◌ c s) = ap (λ t. String.◌∷◌ c t) (print-literals_all s)

and_left : (a b : Bool) → a && b ≡ true → a ≡ true
and_left a b e = ground arith

-- What is held and what is still to be read make up the mask of the parts.
print-read :
    (held : Option String) (s : String) → print (read held s) ≡ String.◌++◌ (held_text held) s
unfolding read
print-read none String.[] = refl
print-read (some run) String.[] =
    print-literals_all (String.◌++◌ "[" run) ∙ sym (append-nil (String.◌++◌ "[" run))
print-read none (String.◌∷◌ c s) = elim (Bool-cases (eqb (code c) b'[')) [
  | inl e ↦ rw e (print-read (some "") s ∙ sym (same_char c "[" s e) ∙ sym (nil-append _))
  | inr e ↦ rw e (ap (λ t. String.◌∷◌ c t) (print-read none s ∙ nil-append s) ∙ sym (nil-append _))
]
print-read (some run) (String.◌∷◌ c s) = elim (Bool-cases (is_word c)) [
  | inl e ↦ rw e (
      print-read (some (String.◌++◌ run (String.◌∷◌ c String.[]))) s
      ∙ simp (append_assoc, cons-append, nil-append))
  | inr e ↦ elim (Bool-cases (eqb (code c) b']' && not (run == ""))) [
    | inl f ↦
        rw (e, f)
          (simp (print-read none s, append_assoc, nil-append, same_char c "]" s (and_left _ _ f)))
    | inr f ↦ elim (Bool-cases (eqb (code c) b'[')) [
      | inl g ↦
          rw (e, f, g)
            (print-literals (String.◌++◌ "[" run) (read (some "") s)
              ∙ ap (λ t. String.◌++◌ (String.◌++◌ "[" run) t)
                  (print-read (some "") s ∙ sym (same_char c "[" s g)))
      | inr g ↦
          rw (e, f, g)
            (print-literals _ (read none s)
              ∙ simp (print-read none s, append_assoc, cons-append, nil-append))
    ]
  ]
]

-- The parts that are read in a mask, written one after the other, are the mask.
pub print-parse : (mask : String) → print (parse mask) ≡ mask
unfolding parse
print-parse mask = print-read none mask ∙ nil-append mask

abbrev all_words : String → Bool
all_words String.[] = true
all_words (String.◌∷◌ c s) = is_word c && all_words s

-- A part that a mask can name: no bracket on its own, and no empty name.
abbrev pub IsNamed : Part → Type 0
IsNamed (literal c) = eqb (code c) b'[' ≡ false
IsNamed (placeholder name) = (all_words name ≡ true) × ((name == "") ≡ false)

and_right : (a b : Bool) → a && b ≡ true → b ≡ true
and_right a b e = ground arith

read-closed :
    (run rest : String)
    → (run == "") ≡ false
    → read (some run) (String.◌∷◌ "]" rest) ≡ placeholder run ∷ read none rest
unfolding read
read-closed run rest e = rw e refl

read-name :
    (run name rest : String)
    → all_words name ≡ true
    → (String.◌++◌ run name == "") ≡ false
    → read (some run) (String.◌++◌ name (String.◌++◌ "]" rest))
      ≡ placeholder (String.◌++◌ run name) ∷ read none rest
unfolding read
read-name run String.[] rest w e =
    ap (λ t. read (some run) t) (nil-append _ ∙ single-append "]" rest)
    ∙ read-closed run rest (ap (λ t. t == "") (sym (append-nil run)) ∙ e)
    ∙ ap (λ t. placeholder t ∷ read none rest) (sym (append-nil run))
read-name run (String.◌∷◌ c name) rest w e =
    let joined : String.◌++◌ (String.◌++◌ run (String.◌∷◌ c String.[])) name
        ≡ String.◌++◌ run (String.◌∷◌ c name) =
      append_assoc run (String.◌∷◌ c String.[]) name
      ∙ ap (λ t. String.◌++◌ run t) (single-append c name) in
    ap (λ t. read (some run) t) (cons-append c name _)
    ∙ rw (and_left (is_word c) (all_words name) w) (
        read-name (String.◌++◌ run (String.◌∷◌ c String.[])) name rest
          (and_right (is_word c) (all_words name) w) (ap (λ t. t == "") joined ∙ e)
        ∙ ap (λ t. placeholder t ∷ read none rest) joined)

-- A mask that is written from parts is read as those parts, where no literal of them is an opening bracket
-- and the name of each placeholder is a word that is not empty.
pub parse-print : (ps : List Part) → All IsNamed ps → parse (print ps) ≡ ps
unfolding parse
parse-print [] h = refl
parse-print (literal c ∷ ps) (h, k) = rw h (ap (λ qs. literal c ∷ qs) (parse-print ps k))
parse-print (placeholder name ∷ ps) ((w, e), k) =
    ap (λ t. read none t) (single-append "[" (String.◌++◌ name (String.◌++◌ "]" (print ps))))
    ∙ read-name "" name (print ps) w (ap (λ t. t == "") (nil-append name) ∙ e)
    ∙ ap (λ t. placeholder t ∷ read none (print ps)) (nil-append name)
    ∙ ap (λ qs. placeholder name ∷ qs) (parse-print ps k)
