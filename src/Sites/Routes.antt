-- ===== src/Sites/Routes.antt =====
-- Classes/Service/RouteService.php, Classes/Service/UrlService.php and
-- Classes/Service/FileReferenceService.php, and Classes/Routing/Enhancer/ResourceEnhancer.php.
use Prim.Native.String
use t3api.Base.{
  String, Bool, true, false, not, ◌&&◌, Option, none, some, [], ◌∷◌, ◌==◌, if◌then◌else◌,
}
use t3api.Base.Text.{concat, str_starts_with}
use t3api.Base.Slashes.{ltrim_slashes, rtrim_slashes, trim_slashes}
use t3api.Exception.{runtime, type_error}
use t3api.Result.{Result, ok, thrown}
use t3api.Action.{Action, pure, lift, ◌>>=◌}
use t3api.Php.{Value, Fields, get, need_string}
use t3api.Sites.{
  SiteLanguage, Environment, ServerRequest, Statics, get_current, get_t3api_route_enhancer,
}

-- `ResourceEnhancer::PARAMETER_NAME`
abbrev pub parameter_name : String
parameter_name = "t3apiResource"

-- `array_key_exists($key, $fields)`
abbrev pub has_key : String → Fields → Bool
has_key key [] = false
has_key key ((k, v) ∷ rest) = let later = has_key key rest in if k == key then true else later

-- `routeHasT3ApiResourceEnhancerQueryParam` of a request, the global one where there is none
unfoldable pub route_has_t3api_resource_enhancer_query_param : Option ServerRequest → Bool
route_has_t3api_resource_enhancer_query_param none = false
route_has_t3api_resource_enhancer_query_param (some r) = has_key parameter_name r.query_params

abbrev enhancer_or_throw : Option Fields → Result Fields
enhancer_or_throw (some e) = ok e
enhancer_or_throw none = thrown (runtime 1565853631761)

-- `getApiRouteEnhancer`; its static variable is never set.
abbrev pub get_api_route_enhancer : Environment → Action Statics Fields
get_api_route_enhancer env = do
  site ← get_current env
  lift (enhancer_or_throw (get_t3api_route_enhancer site))

abbrev base_path_of : Environment → Fields → Value
base_path_of env enhancer = elim (get "basePath" enhancer) [ none ↦ env.base_path | some v ↦ v ]

-- `getApiBasePath`; `trim` wants a text.
unfoldable pub get_api_base_path : Environment → Action Statics String
unfolding get_current get_t3api_route_enhancer get
get_api_base_path env = do
  enhancer ← get_api_route_enhancer env
  path ← lift (need_string (base_path_of env enhancer))
  pure (trim_slashes path)

-- the language of the request, where it is not one asked for by the header
abbrev pub language_of_url : Option ServerRequest → Option SiteLanguage
language_of_url none = none
language_of_url (some r) = if r.header_language_request then none else r.language

abbrev pub prefix_for : Environment → Option SiteLanguage → Action Statics String
prefix_for env (some l) = pure l.base_path
prefix_for env none = do site ← get_current env; pure (site.default_language).base_path

-- `str_starts_with` wants a text, and without a request there is none.
abbrev prefix_of_request : Option ServerRequest → String → Result String
prefix_of_request none prefix = thrown type_error
prefix_of_request (some r) prefix = ok (if str_starts_with r.path prefix then prefix else "")

-- `getLanguageBasePath`
unfoldable pub get_language_base_path : Environment → Action Statics String
unfolding get_current
get_language_base_path env = do
  prefix ← prefix_for env (language_of_url env.request)
  lift (prefix_of_request env.request prefix)

-- `getFullApiBasePath`
unfoldable pub get_full_api_base_path : Environment → Action Statics String
unfolding get_language_base_path get_api_base_path
get_full_api_base_path env = do
  language ← get_language_base_path env
  path ← get_api_base_path env
  pure (trim_slashes (String.◌++◌ language path))

-- `getFullApiBaseUrl`
unfoldable pub get_full_api_base_url : Environment → Action Statics String
unfolding get_current get_full_api_base_path
get_full_api_base_url env = do
  site ← get_current env
  path ← get_full_api_base_path env
  pure (concat (rtrim_slashes site.base ∷ "/" ∷ ltrim_slashes path ∷ []))

abbrev pub remember_path : String → Action Statics String
remember_path path s = (ok path, record s { enhancer_base_path = some path })

-- what the static variable of `ResourceEnhancer::getBasePath` holds, or else the base path, which it then
-- holds
unfoldable pub base_path_from : Environment → Option String → Action Statics String
unfolding get_api_base_path
base_path_from env (some path) = pure path
base_path_from env none = do path ← get_api_base_path env; remember_path path

-- `ResourceEnhancer::getBasePath`
unfoldable pub get_base_path : Environment → Action Statics String
unfolding base_path_from
get_base_path env s = base_path_from env s.enhancer_base_path s

-- the path of the variant that `enhanceForMatching` adds to the routes
unfoldable pub enhance_for_matching : Environment → Action Statics String
unfolding get_base_path
enhance_for_matching env = do
  path ← get_base_path env
  pure (concat (path ∷ "/{" ∷ parameter_name ∷ "?}" ∷ []))

abbrev lacks : Option String → Bool
lacks none = true
lacks (some _) = false

-- `forceAbsoluteUrl`, given `parse_url($url, PHP_URL_SCHEME)`
unfoldable pub force_absolute_url : (String → Option String) → String → String → String
force_absolute_url scheme url host =
    if not (str_starts_with url "//") && lacks (scheme url)
    then concat (rtrim_slashes host ∷ "/" ∷ ltrim_slashes url ∷ [])
    else url

-- `getUrlFromResource`, given the public URL of a file and that of the site; the second part says
-- that a warning was raised
unfoldable pub get_url_from_resource :
    (String → Option String) → Option String → String → Option String × Bool
unfolding force_absolute_url
get_url_from_resource scheme none site_url = (none, true)
get_url_from_resource scheme (some url) site_url =
    if url == "" then (none, true) else (some (force_absolute_url scheme url site_url), false)
