-- ===== src/Tests/Uploads.antt =====
-- Tests of uploads, on a storage that holds the paths of its files and folders.
use Prim.Native.String
use t3api.Base.{
  String, true, false, All, ◌≡◌, refl, ap, ◌∙◌, inl, inr, Option, none, some, List, [], ◌∷◌,
  if◌then◌else◌, ◌==◌,
}
use mathlib.Core.Bool.{false≢true}
use t3api.Base.Int.{pos}
use t3api.Base.Text.{in_array, strtolower}
use t3api.Exception.{Throwable, foreign}
use t3api.Result.{ok, thrown}
use t3api.Php.{str}
use t3api.Domain.Settings.{UploadSettings, new_upload}
use t3api.Upload.Mask.{Part, literal, placeholder, parse, is_word}
use t3api.Upload.Mask.Roundtrip.{print, IsNamed, parse-print}
use t3api.Upload.Filename.{UploadedFile, Hashes, get_filename, path_extension}
use t3api.Upload.Storage.{Storages}
use t3api.Upload.Service.{is_among, get_upload_folder, process}
use t3api.Upload.Service.Safety.{IsAllowed, process_returns, process_refuses}

abbrev hashes : Hashes
hashes = record { hash_file = λ algorithm path. ok (some path); hash = λ algorithm name. ok name }

abbrev text_of : Option String → String
text_of none = ""
text_of (some s) = s

abbrev below : Option String → Option String → String
below at name = String.◌++◌ (text_of at) (String.◌++◌ "/" (text_of name))

abbrev named : String → Option String
named name = if path_extension name == "" then none else some (path_extension name)

abbrev storages : Storages
storages = record {
  Stored = List String;
  Folder = String;
  Storage = Unit {0};
  File = String;
  hashes = hashes;
  is_valid = λ name. if path_extension name == "php" then false else true;
  extension = named;
  trim_explode = λ s. "1" ∷ s ∷ [];
  can_be_interpreted_as_integer = λ v. true;
  get_folder_object =
      λ s stored. if in_array s stored then (ok (some s), stored) else (thrown (foreign 0), stored);
  find_by_uid = λ uid stored. (ok (some tt), stored);
  has_folder = λ st name stored. (ok (in_array (below none name) stored), stored);
  get_folder = λ st name stored. (ok (below none name), stored);
  has_folder_in_folder = λ st name at stored. (ok (in_array (below (some at) name) stored), stored);
  get_folder_in_folder = λ st name at stored. (ok (below (some at) name), stored);
  create_folder = λ st name at stored. (ok (below at name), below at name ∷ stored);
  add_uploaded_file = λ folder file name mode stored.
      (ok (below (some folder) (some name)), below (some folder) (some name) ∷ stored);
}

abbrev images : UploadSettings
images = record new_upload {
  folder = "1:/a/b";
  allowed_file_extensions = str "jpg" ∷ str "png" ∷ [];
}

abbrev sent : String → UploadedFile
sent name = record {
  client_original_name = name;
  pathname = "/tmp/x";
  error = pos 0;
  size = pos 3;
  mime_type = none;
}

stored_test :
    process storages images (some (sent "Me.JPG")) ("/a" ∷ [])
    ≡ (ok "/a/b/Me.JPG", "/a/b/Me.JPG" ∷ "/a/b" ∷ "/a" ∷ [])
unfolding process strtolower
stored_test = refl

nonempty : images.allowed_file_extensions ≡ [] → ⊥
nonempty e = cc

forbidden : ¬ (IsAllowed storages images (sent "x.txt"))
unfolding is_among strtolower path_extension
forbidden (v, inl e) = nonempty e
forbidden (v, inr (x, e, k)) =
    false≢true (ap (λ y. is_among (strtolower y) images.allowed_file_extensions) (ap text_of e) ∙ k)

process_refuses_example :
    (e : Throwable) × (process storages images (some (sent "x.txt")) [] ≡ (thrown e, []))
process_refuses_example = process_refuses storages images (sent "x.txt") [] forbidden

process_returns_example :
    (file : UploadedFile) × (folder : String) × (name : String) × (some (sent "Me.JPG") ≡ some file)
    × IsAllowed storages images file
    × ((get_upload_folder storages images ("/a" ∷ [])).0 ≡ ok folder)
    × (get_filename hashes images file ≡ ok name)
    × (process storages images (some (sent "Me.JPG")) ("/a" ∷ [])
        ≡ storages.add_uploaded_file folder file name images.conflict_mode
            (get_upload_folder storages images ("/a" ∷ [])).1)
process_returns_example =
    process_returns storages images (some (sent "Me.JPG")) ("/a" ∷ []) "/a/b/Me.JPG"
      (ap (λ r. r.0) stored_test)

abbrev dated : List Part
dated =
    placeholder "filename"
    ∷ literal "-"
    ∷ placeholder "contentHash"
    ∷ placeholder "extensionWithDot"
    ∷ []

dated-IsNamed : All IsNamed dated
unfolding is_word
dated-IsNamed = ((refl, refl), (refl, ((refl, refl), ((refl, refl), tt))))

parse-print_example : parse (print dated) ≡ dated
parse-print_example = parse-print dated dated-IsNamed
