-- ===== src/Sites/Languages.antt =====
-- Classes/Middleware, Classes/Hook/EnrichHashBase.php and
-- Classes/EventListener/EnrichPageCacheIdentifierParametersEventListener.php.
use t3api.Base.{
  String, Bool, true, false, not, ◌&&◌, Option, none, some, [], ◌∷◌, ◌==◌, if◌then◌else◌,
}
use t3api.Base.Int.{ℤ, eqb_ℤ}
use t3api.Result.{Result, ok, thrown}
use t3api.Php.{Value, str, Fields, to_int}
use t3api.Sites.{ServerRequest, SiteLanguage}
use t3api.Sites.Routes.{parameter_name, route_has_t3api_resource_enhancer_query_param}

-- `getT3apiLanguageUid`, given the name of the header in the configuration
unfoldable pub get_t3api_language_uid : String → ServerRequest → Option ℤ
unfolding to_int
get_t3api_language_uid header request = elim (request.get_header header) [
  | [] ↦ none
  | v ∷ _ ↦ some (to_int (str v))
]

abbrev is_other_language : ℤ → Option SiteLanguage → Bool
is_other_language uid none = false
is_other_language uid (some l) = not (eqb_ℤ l.language_id uid)

-- `$request->withAttribute('t3apiHeaderLanguageRequest', true)`
abbrev pub with_header_language_request : ServerRequest → ServerRequest
with_header_language_request request = record request { header_language_request = true }

-- The request with the language of its site that has the number. Requests are immutable, and what
-- `with_header_language_request` gives is not kept.
abbrev with_language : ℤ → ServerRequest → Result ServerRequest
with_language uid request =
    let flagged = with_header_language_request request in
    elim (request.get_language_by_id uid) [
      | ok l ↦ ok (record request { language = some l })
      | thrown e ↦ thrown e
    ]

-- the request that `T3apiRequestLanguageResolver::process` passes on
unfoldable pub resolve_language : String → ServerRequest → Result ServerRequest
unfolding get_t3api_language_uid route_has_t3api_resource_enhancer_query_param
resolve_language header request = elim (get_t3api_language_uid header request) [
  | none ↦ ok request
  | some uid ↦
      if route_has_t3api_resource_enhancer_query_param (some request)
        && is_other_language uid request.language
      then with_language uid request
      else ok request
]

-- `unset($fields[$key])`
abbrev pub remove_key : String → Fields → Fields
remove_key key [] = []
remove_key key ((k, v) ∷ rest) =
    let others = remove_key key rest in if k == key then others else (k, v) ∷ others

-- `cleanupRequest`
unfoldable pub cleanup_request : ServerRequest → ServerRequest
cleanup_request request = record request {
  query_params = remove_key parameter_name request.query_params;
}

module _ {ℓ} {A : Type ℓ} where
  -- `T3apiRequestLanguageResolver::process`, given the handler that follows
  unfoldable pub process_language : String → (ServerRequest → Result A) → ServerRequest → Result A
  unfolding resolve_language
  process_language header handler request = elim (resolve_language header request) [
    | ok r ↦ handler r
    | thrown e ↦ thrown e
  ]

  -- `T3apiRequestResolver::process`, given `Bootstrap::process` and the handler that follows
  unfoldable pub process_request :
      (ServerRequest → Result A) → (ServerRequest → Result A) → ServerRequest → Result A
  unfolding cleanup_request route_has_t3api_resource_enhancer_query_param
  process_request bootstrap handler request =
      if route_has_t3api_resource_enhancer_query_param (some request)
      then bootstrap (cleanup_request request)
      else handler request

-- `$fields[$key] = $value`
abbrev set_field : String → Value → Fields → Fields
set_field key v [] = (key, v) ∷ []
set_field key v ((k, u) ∷ rest) =
    let others = set_field key v rest in if k == key then (k, v) ∷ rest else (k, u) ∷ others

-- The parameters that a cached page is found by, with a value that differs from request to request
-- where the global request is one to the API: `EnrichHashBase::init` on `hashParameters`, and the event
-- listener. `microtime` is the time that PHP gives.
unfoldable pub enrich_hash_parameters : Option ServerRequest → String → Fields → Fields
unfolding route_has_t3api_resource_enhancer_query_param
enrich_hash_parameters request microtime fields =
    if route_has_t3api_resource_enhancer_query_param request
    then set_field "t3api_hash_base_random" (str microtime) fields
    else fields
