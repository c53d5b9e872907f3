-- ===== src/Objects/Links/Partial.antt =====
-- What is written of a file when a call throws.
use t3api.Base.{
  ℕ, String, Bool, true, false, ◌≡◌, refl, Option, none, some, List, [], ◌∷◌, ◌++◌, map, take,
  Bool-cases, inl, inr,
}
use t3api.Base.Int.{ℤ, pos}
use t3api.Base.Text.{str_contains}
use t3api.Exception.{Throwable}
use t3api.Result.{Result, ok, thrown}
use t3api.Php.{Value, int, str}
use t3api.Objects.Links.{
  Written, FileReference, output, caught, write_file, write_video, resource_url,
  serialize_file_reference,
}

abbrev paths : List (List String)
paths =
    ("url" ∷ [])
    ∷ ("uid" ∷ [])
    ∷ ("file" ∷ "uid" ∷ [])
    ∷ ("file" ∷ "name" ∷ [])
    ∷ ("file" ∷ "mimeType" ∷ [])
    ∷ ("file" ∷ "size" ∷ [])
    ∷ ("urlEmbed" ∷ [])
    ∷ []

-- the first entries, so many of them
abbrev pub IsBeginning : Written → Type 0
IsBeginning ws = (k : ℕ) × (map (λ w. w.0) ws ≡ take k paths)

module _ (is_exception : Throwable → Bool) where
  abbrev pub IsPartial : Result (Option Written) → Type 0
  IsPartial (thrown e) = is_exception e ≡ false
  IsPartial (ok none) = Unit {0}
  IsPartial (ok (some ws)) = IsBeginning ws

  IsPartial-output : (ws : Written) → IsBeginning ws → IsPartial (ok (output ws))
  IsPartial-output [] h = tt
  IsPartial-output (w ∷ ws) h = h

  stopped :
      (e : Throwable) (ws : Written)
      → IsBeginning ws
      → IsPartial (caught is_exception (thrown e, ws))
  stopped e ws h = elim (Bool-cases (is_exception e)) [
    | inl x ↦ rw (x) (IsPartial-output ws h)
    | inr x ↦ rw (x) x
  ]

  module _ (scheme : String → Option String) (site_url : String) where
    abbrev Fine : FileReference → Type 0
    Fine f = IsPartial (caught is_exception (write_file scheme site_url f []))

    abbrev four : Value → ℤ → ℤ → String → Written
    four u i d n =
        ("url" ∷ [], u)
        ∷ ("uid" ∷ [], int i)
        ∷ ("file" ∷ "uid" ∷ [], int d)
        ∷ ("file" ∷ "name" ∷ [], str n)
        ∷ []

    abbrev six : Value → ℤ → ℤ → String → String → ℤ → Written
    six u i d n m z =
        four u i d n ++ (("file" ∷ "mimeType" ∷ [], str m) ∷ ("file" ∷ "size" ∷ [], int z) ∷ [])

    -- the last step, after which there may be a source to embed
    abbrev Ended : Value → ℤ → ℤ → String → String → ℤ → Bool → Result (Option String) → Type 0
    Ended u i d n m z v b =
        IsPartial (caught is_exception (write_video scheme site_url v b (six u i d n m z)))

    ended :
        (u : Value) (i d : ℤ) (n m : String) (z : ℤ) (v : Bool) (b : Result (Option String))
        → Ended u i d n m z v b
    ended u i d n m z false b = (6, refl)
    ended u i d n m z true (thrown e) = stopped e (six u i d n m z) (6, refl)
    ended u i d n m z true (ok none) = (6, refl)
    ended u i d n m z true (ok (some s)) = (7, refl)

    fine :
        (original : Result (Unit {0})) (public_url : Result (Option String)) (uid : Result ℤ)
        (original_file : Result (Unit {0})) (file_uid : Result ℤ)
        (file_name mime_type : Result String) (file_size : Result ℤ)
        (embedded : Result (Option String))
        → Fine (record {
          original = original;
          public_url = public_url;
          uid = uid;
          original_file = original_file;
          file_uid = file_uid;
          file_name = file_name;
          mime_type = mime_type;
          file_size = file_size;
          embedded = embedded;
        })
    fine (thrown e) u i o d n m z b = stopped e [] (0, refl)
    fine (ok a) (thrown e) i o d n m z b = stopped e [] (0, refl)
    fine (ok a) (ok u) (thrown e) o d n m z b =
        stopped e (("url" ∷ [], resource_url scheme site_url u) ∷ []) (1, refl)
    fine (ok a) (ok u) (ok i) (thrown e) d n m z b =
        stopped e (("url" ∷ [], resource_url scheme site_url u) ∷ ("uid" ∷ [], int i) ∷ [])
          (2, refl)
    fine (ok a) (ok u) (ok i) (ok c) (thrown e) n m z b =
        stopped e (("url" ∷ [], resource_url scheme site_url u) ∷ ("uid" ∷ [], int i) ∷ [])
          (2, refl)
    fine (ok a) (ok u) (ok i) (ok c) (ok d) (thrown e) m z b =
        stopped e (take 3 (four (resource_url scheme site_url u) i d "")) (3, refl)
    fine (ok a) (ok u) (ok i) (ok c) (ok d) (ok n) (thrown e) z b =
        stopped e (four (resource_url scheme site_url u) i d n) (4, refl)
    fine (ok a) (ok u) (ok i) (ok c) (ok d) (ok n) (ok m) (thrown e) b =
        stopped e (take 5 (six (resource_url scheme site_url u) i d n m (pos 0))) (5, refl)
    fine (ok a) (ok u) (ok i) (ok c) (ok d) (ok n) (ok m) (ok z) b =
        ended _ i d n m z (str_contains m "video/") b

    -- Whatever a call throws while a file reference is written: an exception of PHP does not leave the handler,
    -- and the array that is written has the first of its entries, in their order, or is null.
    pub serialize_file_reference-IsPartial :
        (f : FileReference) → IsPartial (serialize_file_reference scheme site_url is_exception f)
    unfolding serialize_file_reference
    serialize_file_reference-IsPartial f =
        fine f.original f.public_url f.uid f.original_file f.file_uid f.file_name f.mime_type
          f.file_size f.embedded
