-- ===== src/Upload/Storage.antt =====
-- What the upload calls and the repository does not contain: the file storages and the validator of
-- TYPO3, and its functions on texts. An operation of a storage may throw, and may change what is stored.
use t3api.Base.{String, Bool, Option, List}
use t3api.Base.Int.{ℤ}
use t3api.Action.{Action}
use t3api.Php.{Value}
use t3api.Upload.Filename.{UploadedFile, Hashes}

-- A path's part is `null` where the path has none.
pub record Storages : Type 1 where
  pub Stored : Type 0
  pub Folder : Type 0
  pub Storage : Type 0
  pub File : Type 0
  pub hashes : Hashes
  -- `FileNameValidator::isValid`
  pub is_valid : String → Bool
  -- the entry `extension` of `PathUtility::pathinfo`
  pub extension : String → Option String
  -- `GeneralUtility::trimExplode(':', …)`
  pub trim_explode : String → List String
  pub can_be_interpreted_as_integer : Value → Bool
  -- `ResourceFactory::getFolderObjectFromCombinedIdentifier`, where it gives a `Folder`
  pub get_folder_object : String → Action Stored (Option Folder)
  -- `StorageRepository::findByUid`
  pub find_by_uid : ℤ → Action Stored (Option Storage)
  -- the folder methods of `ResourceStorage`; the folder around is `null` for the root
  pub has_folder : Storage → Option String → Action Stored Bool
  pub get_folder : Storage → Option String → Action Stored Folder
  pub has_folder_in_folder : Storage → Option String → Folder → Action Stored Bool
  pub get_folder_in_folder : Storage → Option String → Folder → Action Stored Folder
  pub create_folder : Storage → Option String → Option Folder → Action Stored Folder
  -- `Folder::addUploadedFile`, of the file, its new name and the conflict mode
  pub add_uploaded_file : Folder → UploadedFile → String → String → Action Stored File
