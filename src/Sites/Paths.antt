-- ===== src/Sites/Paths.antt =====
-- The base paths of the API, and the language that a header asks for.
use Prim.Native.String
use t3api.Base.{String, false, ◌≡◌, sym, ap, ◌∙◌, [], ◌∷◌}
use t3api.Base.Text.{concat}
use t3api.Base.Slashes.{
  begins_with_slash, ends_with_slash, begins-trim_slashes, ends-trim_slashes, trim_slashes,
  rtrim_slashes, ends-rtrim_slashes, ltrim_slashes-unchanged,
}
use t3api.Result.{ok, ok-injective}
use t3api.Action.{>>=-returns}
use t3api.Sites.{Site, Environment, Statics, get_current}
use t3api.Sites.Routes.{
  get_api_base_path, get_language_base_path, get_full_api_base_path, get_full_api_base_url,
}

-- a text with no slash at its ends
abbrev pub IsTrimmed : String → Type 0
IsTrimmed s = (begins_with_slash s ≡ false) × (ends_with_slash s ≡ false)

trim_slashes-IsTrimmed : (s t : String) → t ≡ trim_slashes s → IsTrimmed t
trim_slashes-IsTrimmed s t e =
    (ap begins_with_slash e ∙ begins-trim_slashes s, ap ends_with_slash e ∙ ends-trim_slashes s)

get_full_api_base_path-IsTrimmed :
    (env : Environment) (s : Statics) (path : String)
    → (get_full_api_base_path env s).0 ≡ ok path
    → IsTrimmed path
unfolding get_full_api_base_path
get_full_api_base_path-IsTrimmed env s path h =
    let (language, e, f, k) = >>=-returns (get_language_base_path env) _ s path h in
    let s' = (get_language_base_path env s).1 in
    let (base, e', f', k') = >>=-returns (get_api_base_path env) _ s' path k in
    trim_slashes-IsTrimmed (String.◌++◌ language base) path (sym (ok-injective k'))

-- The URL of the API is the base of the current site, then one slash, then the full base path: the slashes
-- at the end of the base are cut, and the path has none at its ends.
pub get_full_api_base_url_parts :
    (env : Environment) (s : Statics) (url : String)
    → (get_full_api_base_url env s).0 ≡ ok url
    → (site : Site) × (path : String) × ((get_current env s).0 ≡ ok site)
      × ((get_full_api_base_path env (get_current env s).1).0 ≡ ok path)
      × (url ≡ concat (rtrim_slashes site.base ∷ "/" ∷ path ∷ []))
      × (ends_with_slash (rtrim_slashes site.base) ≡ false)
      × IsTrimmed path
unfolding get_full_api_base_url
get_full_api_base_url_parts env s url h =
    let (site, e, f, k) = >>=-returns (get_current env) _ s url h in
    let s' = (get_current env s).1 in
    let (path, e', f', k') = >>=-returns (get_full_api_base_path env) _ s' url k in
    let trimmed = get_full_api_base_path-IsTrimmed env s' path e' in
    (
      site,
      path,
      e,
      e',
      sym (ok-injective k')
          ∙ ap (λ t. concat (rtrim_slashes site.base ∷ "/" ∷ t ∷ []))
              (ltrim_slashes-unchanged path trimmed.0),
      ends-rtrim_slashes site.base,
      trimmed,
    )
