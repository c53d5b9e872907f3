-- ===== src/Domain/Settings.antt =====
-- Classes/Domain/Model: what settings have in common, and those of persistence and of uploads.
-- `create` starts from a clone of the settings that are inherited, or from an object whose typed
-- properties have no value unless the class gives a default; to read such a property throws.
use t3api.Base.{map, String, Option, none, some, List, [], if◌then◌else◌, first}
use t3api.Base.Int.{ℤ, pos}
use t3api.Exception.{uninitialized, type_error}
use t3api.Result.{Result, ok, thrown, ◌>>=◌}
use t3api.Php.{Value, str, arr, Fields, fields, get, to_bool, to_int, need_string}

-- `$settings->field`, of the settings that were cloned or of a new object
abbrev pub inherited {ℓ κ} : {A : Type ℓ} {S : Type κ} → (S → A) → Option S → Result A
inherited field none = thrown uninitialized
inherited field (some s) = ok (field s)

-- `isset($attributes[$name]) ? cast($attributes[$name]) : $settings->field`
abbrev pub set_or {ℓ κ} :
    {A : Type ℓ} {S : Type κ} → Option Value → (Value → A) → (S → A) → Option S → Result A
set_or none cast field base = inherited field base
set_or (some v) cast field base = ok (cast v)

-- `$attributes[$name] ?? $settings->field`, for a property `string`
abbrev pub text_or {κ} : {S : Type κ} → Option Value → (S → String) → Option S → Result String
text_or none field base = inherited field base
text_or (some v) field base = need_string v

-- `$attributes[$name] ?? []`, for a parameter `array`
abbrev pub array_or_empty : Option Value → Result Fields
array_or_empty none = ok []
array_or_empty (some (arr es)) = ok (fields es)
array_or_empty (some _) = thrown type_error

pub record PersistenceSettings : Type 0 where
  pub storage_pids : List ℤ
  pub recursion_level : ℤ

abbrev pub new_persistence : PersistenceSettings
new_persistence = record { storage_pids = []; recursion_level = pos 0 }

abbrev pub or_new {ℓ} : {S : Type ℓ} → S → Option S → S
or_new new none = new
or_new new (some s) = s

-- `getMainStoragePid`
unfoldable pub get_main_storage_pid : PersistenceSettings → ℤ
get_main_storage_pid s = elim (first s.storage_pids) [ none ↦ pos 0 | some pid ↦ pid ]

-- `GeneralUtility::intExplode(',', …)` of TYPO3
module _ (int_explode : String → List ℤ) where
  -- `!empty($attributes['storagePid'])`
  abbrev storage_pids_or : Option Value → List ℤ → Result (List ℤ)
  storage_pids_or none inherited_pids = ok inherited_pids
  storage_pids_or (some v) inherited_pids =
      if to_bool v then (do s ← need_string v; ok (int_explode s)) else ok inherited_pids

  unfoldable pub create_persistence :
      Fields → Option PersistenceSettings → Result PersistenceSettings
  create_persistence attributes base = do
    let start = or_new new_persistence base
    pids ← storage_pids_or (get "storagePid" attributes) start.storage_pids
    level ← set_or (get "recursive" attributes) to_int (λ s. s.recursion_level) (some start)
    ok (record { storage_pids = pids; recursion_level = level })

pub record UploadSettings : Type 0 where
  pub folder : String
  pub allowed_file_extensions : List Value
  pub conflict_mode : String
  pub filename_hash_algorithm : String
  pub content_hash_algorithm : String
  pub filename_mask : String

abbrev pub new_upload : UploadSettings
new_upload = record {
  folder = "1:/user_upload/";
  allowed_file_extensions = [];
  conflict_mode = "rename";
  filename_hash_algorithm = "md5";
  content_hash_algorithm = "md5";
  filename_mask = "[filename][extensionWithDot]";
}

abbrev values : Fields → List Value
values = map (λ field. field.1)

-- The argument stands for `trimExplode(',', …['GFX']['imagefile_ext'])` of TYPO3.
module _ (imagefile_extensions : List String) where
  -- `$attributes['allowedFileExtensions'] ?? …`, for a property `array`
  abbrev extensions_or_images : Option Value → Result (List Value)
  extensions_or_images none = ok (map str imagefile_extensions)
  extensions_or_images (some (arr es)) = ok (values (fields es))
  extensions_or_images (some _) = thrown type_error

  unfoldable pub create_upload : Fields → Option UploadSettings → Result UploadSettings
  create_upload attributes base = do
    let start = some (or_new new_upload base)
    folder ← text_or (get "folder" attributes) (λ (s : UploadSettings). s.folder) start
    extensions ← extensions_or_images (get "allowedFileExtensions" attributes)
    conflict ←
        text_or (get "conflictMode" attributes) (λ (s : UploadSettings). s.conflict_mode) start
    name_hash ←
        text_or (get "filenameHashAlgorithm" attributes)
          (λ (s : UploadSettings). s.filename_hash_algorithm) start
    content_hash ←
        text_or (get "contentHashAlgorithm" attributes)
          (λ (s : UploadSettings). s.content_hash_algorithm) start
    mask ← text_or (get "filenameMask" attributes) (λ (s : UploadSettings). s.filename_mask) start
    ok (record {
      folder = folder;
      allowed_file_extensions = extensions;
      conflict_mode = conflict;
      filename_hash_algorithm = name_hash;
      content_hash_algorithm = content_hash;
      filename_mask = mask;
    })
