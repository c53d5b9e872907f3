-- ===== src/Upload/Service/Safety.antt =====
-- Which uploads are stored, and what a refused upload leaves.
use t3api.Base.{
  String, true, ◌⊎◌, ◌≡◌, refl, sym, ◌∙◌, inl, inr, Option, none, some, List, [], ◌∷◌,
  if◌then◌else◌,
}
use t3api.Base.Text.{strtolower}
use t3api.Exception.{Throwable, invalid_argument}
use t3api.Result.{Result, ok, thrown, Result-cases, guard-passed, returned≢thrown}
use t3api.Action.{lift, ◌>>=◌, >>=-returns}
use t3api.Php.{Value}
use t3api.Domain.Settings.{UploadSettings}
use t3api.Upload.Filename.{UploadedFile, get_filename}
use t3api.Upload.Storage.{Storages}
use t3api.Upload.Service.{
  is_among, restricts, verify_extension, verify_file_extension, get_upload_folder, process,
}

module _ (storages : Storages) (m : UploadSettings) where
  open storages use {Stored, Folder, File, hashes, is_valid, extension, add_uploaded_file}

  -- a name that may be stored
  abbrev pub IsAllowed : UploadedFile → Type 0
  IsAllowed file =
      (is_valid file.client_original_name ≡ true)
      × ((m.allowed_file_extensions ≡ [])
          ⊎ ((e : String) × (extension file.client_original_name ≡ some e)
              × (is_among (strtolower e) m.allowed_file_extensions ≡ true)))

  accepted :
      (found : Option String)
      → verify_extension storages m found ≡ ok tt
      → (e : String) × (found ≡ some e) × (is_among (strtolower e) m.allowed_file_extensions ≡ true)
  accepted none h = absurd (returned≢thrown (sym h))
  accepted (some e) h = (
    e,
    refl,
    (guard-passed (is_among (strtolower e) m.allowed_file_extensions) (ok tt)
        (invalid_argument 1577000112816) tt h).0,
  )

  -- with no list of extensions, or one that is consulted
  restricted :
      (allowed : List Value) (r : Result (Unit {0}))
      → (if restricts storages (record m { allowed_file_extensions = allowed }) then r else ok tt)
        ≡ ok tt
      → (allowed ≡ []) ⊎ (r ≡ ok tt)
  restricted [] r h = inl refl
  restricted (v ∷ vs) r h = inr h

  verified : (file : UploadedFile) → verify_file_extension storages m file ≡ ok tt → IsAllowed file
  unfolding verify_file_extension
  verified file h =
      let found = extension file.client_original_name in
      let (v, k) =
        guard-passed (is_valid file.client_original_name)
          (if restricts storages m then verify_extension storages m found else ok tt)
          (invalid_argument 1576999829435) tt h in
      (
        v,
        elim (restricted m.allowed_file_extensions (verify_extension storages m found) k) [
          | inl e ↦ inl e
          | inr e ↦ inr (accepted found e)
        ],
      )

  -- A file whose name is not valid, or, where there is a list of allowed extensions, whose extension is missing
  -- or not in it, is refused before anything is done: no folder is made and nothing is stored.
  pub process_refuses :
      (file : UploadedFile) (s : Stored)
      → ¬ (IsAllowed file)
      → (e : Throwable) × (process storages m (some file) s ≡ (thrown e, s))
  unfolding process
  process_refuses file s forbidden = elim (Result-cases (verify_file_extension storages m file)) [
    | inl (u, e) ↦ absurd (forbidden (verified file e))
    | inr (t, e) ↦ (t, rw e refl)
  ]

  -- What an upload stores is a file that was sent, with a name that is valid and an extension that is
  -- allowed; it is added to the upload folder under the name that the mask gives, with the mode for
  -- conflicts, and that is the last thing done.
  pub process_returns :
      (given : Option UploadedFile) (s : Stored) (stored : File)
      → (process storages m given s).0 ≡ ok stored
      → (file : UploadedFile) × (folder : Folder) × (name : String) × (given ≡ some file)
        × IsAllowed file
        × ((get_upload_folder storages m s).0 ≡ ok folder)
        × (get_filename hashes m file ≡ ok name)
        × (process storages m given s
            ≡ add_uploaded_file folder file name m.conflict_mode (get_upload_folder storages m s).1)
  unfolding process
  process_returns none s stored h = absurd (returned≢thrown (sym h))
  process_returns (some file) s stored h =
      let (u, k₁, e₁, l₁) =
        >>=-returns (lift (verify_file_extension storages m file))
          (λ u. get_upload_folder storages m >>= λ folder.
            lift (get_filename hashes m file) >>= λ name.
            add_uploaded_file folder file name m.conflict_mode)
          s stored h in
      let (folder, k₂, e₂, l₂) =
        >>=-returns (get_upload_folder storages m)
          (λ folder. lift (get_filename hashes m file) >>= λ name.
            add_uploaded_file folder file name m.conflict_mode)
          s stored l₁ in
      let s' = (get_upload_folder storages m s).1 in
      let (name, k₃, e₃, l₃) =
        >>=-returns (lift (get_filename hashes m file))
          (λ name. add_uploaded_file folder file name m.conflict_mode) s' stored l₂ in
      (file, folder, name, refl, verified file k₁, k₂, k₃, e₁ ∙ e₂ ∙ e₃)
