-- ===== src/Upload/Filename/Default.antt =====
-- The file name that the default mask gives.
use Prim.Native.Char.{Char, code}
use Prim.Native.String
use text.Mathlib.TextLemmas.{append-nil, cons-append, cons-ne-nil, nil-append}
use t3api.Base.{
  false, ◌≡◌, refl, sym, ap, ◌∙◌, String, Option, none, some, ◌==◌, eqb, eq_iff, Bool-cases, inl,
  inr, if◌then◌else◌,
}
use t3api.Result.{ok}
use t3api.Domain.Settings.{UploadSettings, new_upload}
use t3api.Upload.Mask.Roundtrip.{same_char}
use t3api.Upload.Filename.{
  UploadedFile, Hashes, basename, split_before, split_last_dot, stem_of, ending_of, with_dot,
  get_filename,
}

-- a name without the dot at its end
abbrev pub drop_final_dot : String → String
drop_final_dot String.[] = String.[]
drop_final_dot (String.◌∷◌ c String.[]) =
    if eqb (code c) b'.' then String.[] else String.◌∷◌ c String.[]
drop_final_dot (String.◌∷◌ c (String.◌∷◌ d s)) = String.◌∷◌ c (drop_final_dot (String.◌∷◌ d s))

abbrev rejoined : String → Option (String × String) → String
rejoined name parts = String.◌++◌ (stem_of name parts) (with_dot (ending_of parts))

cons-ne_empty : (d : Char) (s : String) → (String.◌∷◌ d s == "") ≡ false
cons-ne_empty d s = elim (Bool-cases (String.◌∷◌ d s == "")) [
  | inl e ↦ absurd (cons-ne-nil d s ((eq_iff (String.◌∷◌ d s) "").0 e))
  | inr e ↦ e
]

-- one more character before a text that is not empty
rejoined-cons :
    (c d : Char) (s w : String) (o : Option (String × String))
    → rejoined (String.◌∷◌ d s) o ≡ w
    → rejoined (String.◌∷◌ c (String.◌∷◌ d s)) (split_before c (String.◌∷◌ d s) o) ≡ String.◌∷◌ c w
rejoined-cons c d s w (some (stem, ending)) h = cons-append c stem _ ∙ ap (λ t. String.◌∷◌ c t) h
rejoined-cons c d s w none h = elim (Bool-cases (eqb (code c) b'.')) [
  | inl e ↦
      rw (e, cons-ne_empty d s)
        (nil-append _
          ∙ sym (same_char c "." (String.◌∷◌ d s) e)
          ∙ ap (λ t. String.◌∷◌ c t) (sym (append-nil _) ∙ h))
  | inr e ↦ rw e (cons-append c (String.◌∷◌ d s) "" ∙ ap (λ t. String.◌∷◌ c t) h)
]

rejoined-split : (s : String) → rejoined s (split_last_dot s) ≡ drop_final_dot s
unfolding split_last_dot
rejoined-split String.[] = refl
rejoined-split (String.◌∷◌ c String.[]) = elim (Bool-cases (eqb (code c) b'.')) [
  | inl e ↦ rw e refl
  | inr e ↦ rw e (append-nil _)
]
rejoined-split (String.◌∷◌ c (String.◌∷◌ d s)) =
    rejoined-cons c d s _ (split_last_dot (String.◌∷◌ d s)) (rejoined-split (String.◌∷◌ d s))

-- With the default mask a file keeps its own name, where that has no directories, but for a dot at its end.
get_filename_default :
    (hashes : Hashes) (m : UploadSettings) (file : UploadedFile)
    → m.filename_mask ≡ new_upload.filename_mask
    → basename file.client_original_name ≡ file.client_original_name
    → get_filename hashes m file ≡ ok (drop_final_dot file.client_original_name)
unfolding get_filename
get_filename_default hashes m file e b =
    rw (e, b)
      (ap
          (λ t. ok (
            String.◌++◌
              (stem_of file.client_original_name (split_last_dot file.client_original_name)) t))
          (append-nil _)
        ∙ ap ok (rejoined-split file.client_original_name))
