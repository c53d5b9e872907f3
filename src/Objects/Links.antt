-- ===== src/Objects/Links.antt =====
-- Classes/Serializer/Handler/FileReferenceHandler.php, RecordUriHandler.php and TypolinkHandler.php:
-- what is written of files and links. Warnings are left out.
pub mod Partial
use t3api.Base.{
  inr, inl, ◌⊎◌, String, Bool, true, false, not, ◌&&◌, Option, none, some, List, [], ◌∷◌, ◌++◌,
  ◌==◌, map, if◌then◌else◌,
}
use t3api.Base.Int.{ℤ}
use t3api.Base.Text.{concat, str_contains}
use t3api.Php.Number.{text_of_int}
use t3api.Exception.{Throwable, invalid_argument}
use t3api.Result.{Result, ok, thrown}
use t3api.Action.{Action, pure, lift, ◌>>=◌, ◌>>◌}
use t3api.Php.{Value, null, int, str, to_bool}
use t3api.Sites.Routes.{force_absolute_url, get_url_from_resource}

-- The array that is written, by the paths of its entries.
abbrev pub Written : Type 0
Written = List (List String × Value)

-- What TYPO3 answers about a file reference. `embedded` is the source that the pattern finds in what the
-- renderer of the file makes, where there is a renderer and the pattern matches.
pub record FileReference : Type 0 where
  pub original : Result (Unit {0})
  pub public_url : Result (Option String)
  pub uid : Result ℤ
  pub original_file : Result (Unit {0})
  pub file_uid : Result ℤ
  pub file_name : Result String
  pub mime_type : Result String
  pub file_size : Result ℤ
  pub embedded : Result (Option String)

abbrev pub text_or_null : Option String → Value
text_or_null none = null
text_or_null (some s) = str s

-- `$out[...] = ...`
abbrev pub write : List String → Value → Action Written (Unit {0})
write path v s = (ok tt, s ++ ((path, v) ∷ []))

abbrev pub output : Written → Option Written
output [] = none
output (w ∷ ws) = some (w ∷ ws)

-- Whether a throwable is an `Exception` is known to PHP.
module _ (is_exception : Throwable → Bool) where
  -- `catch (\Exception $e)` around the assignments
  abbrev pub caught : Result (Unit {0}) × Written → Result (Option Written)
  caught (ok _, s) = ok (output s)
  caught (thrown e, s) = if is_exception e then ok (output s) else thrown e

-- `parse_url($url, PHP_URL_SCHEME)` and the attribute `TYPO3_SITE_URL` of the context
module _ (scheme : String → Option String) (site_url : String) where
  abbrev pub write_embedded : Option String → Action Written (Unit {0})
  write_embedded none = pure tt
  write_embedded (some source) =
      write ("urlEmbed" ∷ [])
        (str (if source == "" then "" else force_absolute_url scheme source site_url))

  abbrev pub write_video : Bool → Result (Option String) → Action Written (Unit {0})
  write_video false embedded = pure tt
  write_video true embedded = do source ← lift embedded; write_embedded source

  abbrev pub resource_url : Option String → Value
  resource_url url = text_or_null (get_url_from_resource scheme url site_url).0

  -- the assignments of `FileReferenceHandler::serialize`
  abbrev pub write_file : FileReference → Action Written (Unit {0})
  write_file f = do
    lift f.original
    url ← lift f.public_url
    write ("url" ∷ []) (resource_url url)
    uid ← lift f.uid
    write ("uid" ∷ []) (int uid)
    lift f.original_file
    file_uid ← lift f.file_uid
    write ("file" ∷ "uid" ∷ []) (int file_uid)
    file_name ← lift f.file_name
    write ("file" ∷ "name" ∷ []) (str file_name)
    mime_type ← lift f.mime_type
    write ("file" ∷ "mimeType" ∷ []) (str mime_type)
    file_size ← lift f.file_size
    write ("file" ∷ "size" ∷ []) (int file_size)
    write_video (str_contains mime_type "video/") f.embedded

  -- `FileReferenceHandler::serialize`
  unfoldable pub serialize_file_reference :
      (is_exception : Throwable → Bool) → FileReference → Result (Option Written)
  unfolding force_absolute_url get_url_from_resource str_contains
  serialize_file_reference is_exception f = caught is_exception (write_file f [])

  -- `TypolinkHandler::serialize`, given the link that TYPO3 makes of a parameter
  unfoldable pub serialize_typolink : (String → String) → String → String
  unfolding force_absolute_url
  serialize_typolink make_link parameter = force_absolute_url scheme (make_link parameter) site_url

  abbrev pub uid_text : Option ℤ → String
  uid_text none = ""
  uid_text (some uid) = text_of_int uid

  -- `RecordUriHandler::serialize`, given the uid of the object where it is a domain object
  unfoldable pub serialize_record_uri :
      (String → String) → (identifier : String) → Option (Option ℤ) → Result String
  unfolding serialize_typolink text_of_int
  serialize_record_uri make_link identifier none = thrown (invalid_argument 1562229270419)
  serialize_record_uri make_link identifier (some uid) = ok (
      serialize_typolink make_link
        (concat ("t3://record?identifier=" ∷ identifier ∷ "&uid=" ∷ uid_text uid ∷ [])))
