-- ===== src/Upload/Filename.antt =====
-- Classes/Service/FileUploadService.php: getFilename, with the functions of PHP on file names.
mod Default
use Prim.Native.Char.{Char, code}
use Prim.Native.String
use t3api.Base.{
  String, Bool, true, false, ◌||◌, Option, none, some, List, [], ◌∷◌, ◌++◌, ◌==◌, eqb,
  if◌then◌else◌,
}
use t3api.Base.Int.{ℤ}
use t3api.Base.Text.{str_contains}
use t3api.Exception.{type_error}
use t3api.Result.{Result, ok, thrown, ◌>>=◌}
use t3api.Domain.Settings.{UploadSettings}
use t3api.Upload.Mask.{Part, literal, placeholder, parse}

-- `UploadedFile` of Symfony
pub record UploadedFile : Type 0 where
  pub client_original_name : String
  pub pathname : String
  pub error : ℤ
  pub size : ℤ
  pub mime_type : Option String

-- `hash_file` gives false for a file that it cannot read, and both throw for an unknown algorithm.
pub record Hashes : Type 0 where
  pub hash_file : String → String → Result (Option String)
  pub hash : String → String → Result String

-- `basename($path)`: the last part between slashes that is not empty; `last` is the one before `cur`.
last_part : String → String → String → String
last_part last cur String.[] = if cur == "" then last else cur
last_part last cur (String.◌∷◌ c s) =
    let ended = last_part (if cur == "" then last else cur) "" s in
    let longer = last_part last (String.◌++◌ cur (String.◌∷◌ c String.[])) s in
    if eqb (code c) b'/' then ended else longer

unfoldable pub basename : String → String
unfolding last_part
basename = last_part "" ""

-- What stands before and after the last dot of a name, with a character put before it.
abbrev pub split_before : Char → String → Option (String × String) → Option (String × String)
split_before c s (some (stem, ending)) = some (String.◌∷◌ c stem, ending)
split_before c s none = if eqb (code c) b'.' then some ("", s) else none

unfoldable pub split_last_dot : String → Option (String × String)
split_last_dot String.[] = none
split_last_dot (String.◌∷◌ c s) = split_before c s (split_last_dot s)

abbrev pub stem_of : String → Option (String × String) → String
stem_of name none = name
stem_of name (some (stem, ending)) = stem

abbrev pub ending_of : Option (String × String) → String
ending_of none = ""
ending_of (some (stem, ending)) = ending

-- `pathinfo($path, PATHINFO_FILENAME)`
unfoldable pub path_filename : String → String
unfolding basename split_last_dot
path_filename path = stem_of (basename path) (split_last_dot (basename path))

-- `pathinfo($path, PATHINFO_EXTENSION)`
unfoldable pub path_extension : String → String
unfolding basename split_last_dot
path_extension path = ending_of (split_last_dot (basename path))

-- `$replacements`: a value that is false becomes an empty text.
abbrev pub Replacements : Type 0
Replacements = List (String × String)

abbrev text_or_false : Option String → String
text_or_false none = ""
text_or_false (some s) = s

abbrev pub with_dot : String → String
with_dot ending = if ending == "" then "" else String.◌++◌ "." ending

module _ (hashes : Hashes) where
  open hashes use {hash_file, hash}

  abbrev content_hash : UploadSettings → UploadedFile → Result Replacements
  content_hash m file =
      if str_contains m.filename_mask "[contentHash]"
      then (do
        h ← hash_file m.content_hash_algorithm file.pathname
        ok (("contentHash", text_or_false h) ∷ []))
      else ok []

  abbrev filename_hash : UploadSettings → UploadedFile → Result Replacements
  filename_hash m file =
      if str_contains m.filename_mask "[filenameHash]"
      then (do
        h ← hash m.filename_hash_algorithm file.client_original_name
        ok (("filenameHash", h) ∷ []))
      else ok []

  unfoldable pub replacements : UploadSettings → UploadedFile → Result Replacements
  unfolding path_filename path_extension str_contains
  replacements m file = do
    let ending = path_extension file.client_original_name
    of_content ← content_hash m file
    of_name ← filename_hash m file
    ok (
        ("filename", path_filename file.client_original_name)
          ∷ ("extension", ending)
          ∷ ("extensionWithDot", with_dot ending)
          ∷ of_content
        ++ of_name)

-- `$replacements[$match[1]]`: for a name that is not there, null is not what the closure may return.
unfoldable pub replacement : Replacements → String → Result String
replacement [] name = thrown type_error
replacement ((k, v) ∷ rest) name = if k == name then ok v else replacement rest name

-- `preg_replace_callback`, on the parts of the mask
unfoldable pub substitute : Replacements → List Part → Result String
unfolding replacement
substitute rs [] = ok ""
substitute rs (literal c ∷ rest) = do s ← substitute rs rest; ok (String.◌∷◌ c s)
substitute rs (placeholder name ∷ rest) = do
  v ← replacement rs name
  s ← substitute rs rest
  ok (String.◌++◌ v s)

unfoldable pub get_filename : Hashes → UploadSettings → UploadedFile → Result String
unfolding replacements substitute parse
get_filename hashes m file = do
  rs ← replacements hashes m file
  substitute rs (parse m.filename_mask)
