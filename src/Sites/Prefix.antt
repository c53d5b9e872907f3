-- ===== src/Sites/Prefix.antt =====
-- Requests whose header asks for another language than their URL.
use Prim.Native.String
use text.Mathlib.TextLemmas.{nil-append}
use t3api.Base.{String, true, false, ◌≡◌, refl, ◌∙◌, some, if◌then◌else◌}
use t3api.Base.Int.{ℤ, eqb_ℤ}
use t3api.Base.Text.{str_starts_with}
use t3api.Base.Slashes.{trim_slashes}
use t3api.Result.{ok}
use t3api.Sites.{SiteLanguage, Environment, ServerRequest, Statics}
use t3api.Sites.Routes.{
  get_api_base_path, get_language_base_path, get_full_api_base_path,
  route_has_t3api_resource_enhancer_query_param,
}
use t3api.Sites.Languages.{get_t3api_language_uid, resolve_language}

-- what a call finds while a request is the global one
abbrev pub with_request : Environment → ServerRequest → Environment
with_request env r = record env { request = some r }

module _ (env : Environment) (s : Statics) (r : ServerRequest) (path : String)
    (api : (get_api_base_path (with_request env r) s).0 ≡ ok path)
    (unflagged : r.header_language_request ≡ false) where
  prefix_of_language :
      (l : SiteLanguage)
      → r.language ≡ some l
      → get_language_base_path (with_request env r) s
        ≡ (ok (if str_starts_with r.path l.base_path then l.base_path else ""), s)
  unfolding get_language_base_path
  prefix_of_language l e = rw (unflagged, e) refl

  full_path_of_language :
      (l : SiteLanguage)
      → r.language ≡ some l
      → (get_full_api_base_path (with_request env r) s).0
        ≡ ok (
            trim_slashes
              (String.◌++◌ (if str_starts_with r.path l.base_path then l.base_path else "") path))
  unfolding get_full_api_base_path
  full_path_of_language l e = rw (prefix_of_language l e, api) refl

-- The header of a request to the API asks for a language that is not the one of its URL, and whose base the
-- path does not begin with. The middleware passes the request on with that language, and from then on the
-- base path of the API is the one without a language, where before it began with the base of the language of
-- the URL, if the path does.
pub language_header_drops_prefix :
    (header : String) (env : Environment) (s : Statics) (r : ServerRequest) (l l' : SiteLanguage)
    (uid : ℤ) (path : String)
    → r.header_language_request ≡ false
    → r.language ≡ some l
    → route_has_t3api_resource_enhancer_query_param (some r) ≡ true
    → get_t3api_language_uid header r ≡ some uid
    → eqb_ℤ l.language_id uid ≡ false
    → r.get_language_by_id uid ≡ ok l'
    → str_starts_with r.path l'.base_path ≡ false
    → (get_api_base_path (with_request env r) s).0 ≡ ok path
    → ((get_full_api_base_path (with_request env r) s).0
        ≡ ok (
            trim_slashes
              (String.◌++◌ (if str_starts_with r.path l.base_path then l.base_path else "") path)))
      × (r' : ServerRequest) × (resolve_language header r ≡ ok r')
      × (r'.language ≡ some l')
      × ((get_full_api_base_path (with_request env r') s).0 ≡ ok (trim_slashes path))
unfolding resolve_language get_api_base_path
language_header_drops_prefix header env s r l l' uid path unflagged e has h differs found outside
      api =
    (
      full_path_of_language env s r path api unflagged l e,
      record r { language = some l' },
      rw (h, has, e, differs, found, resolve_language) refl,
      refl,
      full_path_of_language env s (record r { language = some l' }) path api unflagged l' refl
          ∙ rw (outside, nil-append path) refl,
    )
