-- ===== src/Upload/Service.antt =====
-- Classes/Service/FileUploadService.php: process, verifyFileExtension and getUploadFolder.
pub mod Safety
use Prim.Native.Char.{code}
use Prim.Native.String
use t3api.Base.{
  String, Bool, true, false, not, ◌&&◌, ◌||◌, Option, none, some, List, [], ◌∷◌, ◌==◌, eqb,
  if◌then◌else◌, drop, first,
}
use t3api.Base.Int.{ℤ, pos}
use t3api.Base.Text.{strtolower}
use t3api.Exception.{invalid_argument, type_error}
use t3api.Result.{Result, ok, thrown}
use t3api.Php.{Value, str, null, to_int}
use t3api.Domain.Settings.{UploadSettings}
use t3api.Upload.Filename.{UploadedFile, get_filename}
use t3api.Upload.Storage.{Storages}
use t3api.Action.{Action, lift, catch_all, ◌>>=◌, ◌>>◌}

-- `in_array($s, $values, true)`
unfoldable pub is_among : String → List Value → Bool
is_among s [] = false
is_among s (str t ∷ rest) = s == t || is_among s rest
is_among s (_ ∷ rest) = is_among s rest

-- The pieces between the slashes of a text; `cur` is the piece read so far.
split_slashes : String → String → List String
split_slashes cur String.[] = cur ∷ []
split_slashes cur (String.◌∷◌ c s) =
    let closed = cur ∷ split_slashes "" s in
    let longer = split_slashes (String.◌++◌ cur (String.◌∷◌ c String.[])) s in
    if eqb (code c) b'/' then closed else longer

-- `explode('/', $s)`
unfoldable pub explode_slashes : String → List String
unfolding split_slashes
explode_slashes = split_slashes ""

abbrev text_or_null : Option String → Value
text_or_null none = null
text_or_null (some s) = str s

module _ (storages : Storages) where
  open storages use {
    Stored, Folder, Storage, File, hashes, is_valid, extension, trim_explode,
    can_be_interpreted_as_integer, get_folder_object, find_by_uid, has_folder, get_folder,
    has_folder_in_folder, get_folder_in_folder, create_folder, add_uploaded_file,
  }

  -- `strtolower` wants a text.
  abbrev pub verify_extension : UploadSettings → Option String → Result (Unit {0})
  verify_extension m none = thrown type_error
  verify_extension m (some ending) =
      if is_among (strtolower ending) m.allowed_file_extensions
      then ok tt
      else thrown (invalid_argument 1577000112816)

  abbrev pub restricts : UploadSettings → Bool
  restricts m = elim m.allowed_file_extensions [ [] ↦ false | _ ∷ _ ↦ true ]

  unfoldable pub verify_file_extension : UploadSettings → UploadedFile → Result (Unit {0})
  unfolding is_among
  verify_file_extension m file =
      if is_valid file.client_original_name
      then if restricts m then verify_extension m (extension file.client_original_name) else ok tt
      else thrown (invalid_argument 1576999829435)

  -- The uid of the storage that a folder names; without a number before the colon, 0.
  unfoldable pub storage_uid : String → ℤ
  storage_uid folder =
      let parts = trim_explode folder in
      let id = text_or_null (first parts) in
      let no_object : Bool = elim (first (drop 1 parts)) [ none ↦ true | some _ ↦ false ] in
      if no_object && not (can_be_interpreted_as_integer id) then pos 0 else to_int id

  -- One round of the loop: the folder with a name in a folder, which is created where it is not there.
  unfoldable pub enter : Storage → Option Folder → Option String → Action Stored Folder
  enter storage (some at) name = do
    found ← has_folder_in_folder storage name at
    if found then get_folder_in_folder storage name at else create_folder storage name (some at)
  enter storage none name = do
    found ← has_folder storage name
    if found then get_folder storage name else create_folder storage name none

  -- `do … while (count($path))`: the first round takes `null` off an empty path.
  unfoldable pub make_path : Storage → Option Folder → List String → Action Stored Folder
  unfolding enter
  make_path storage at [] = enter storage at none
  make_path storage at (name ∷ []) = enter storage at (some name)
  make_path storage at (name ∷ next ∷ rest) = do
    folder ← enter storage at (some name)
    make_path storage (some folder) (next ∷ rest)

  abbrev with_storage : String → Option Storage → Action Stored (Option Folder)
  with_storage folder none = lift (thrown (invalid_argument 1577262016243))
  with_storage folder (some storage) = do
    made ← make_path storage none (drop 1 (explode_slashes folder))
    lift (ok (some made))

  -- What is done where the folder cannot be had: its directories are made one after the other.
  unfoldable pub make_folder : String → Action Stored (Option Folder)
  unfolding make_path storage_uid explode_slashes
  make_folder folder = do storage ← find_by_uid (storage_uid folder); with_storage folder storage

  abbrev folder_or_throw : Option Folder → Result Folder
  folder_or_throw none = thrown (invalid_argument 1577001080960)
  folder_or_throw (some folder) = ok folder

  unfoldable pub get_upload_folder : UploadSettings → Action Stored Folder
  unfolding make_folder
  get_upload_folder m = do
    found ← catch_all (get_folder_object m.folder) (make_folder m.folder)
    lift (folder_or_throw found)

  -- `$request->files->get('originalResource')`: without a file, null is given to a typed parameter.
  unfoldable pub process : UploadSettings → Option UploadedFile → Action Stored File
  unfolding verify_file_extension get_upload_folder get_filename
  process m none = lift (thrown type_error)
  process m (some file) = do
    lift (verify_file_extension m file)
    folder ← get_upload_folder m
    name ← lift (get_filename hashes m file)
    add_uploaded_file folder file name m.conflict_mode
