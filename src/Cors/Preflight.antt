-- ===== src/Cors/Preflight.antt =====
-- Classes/OperationHandler/OptionsOperationHandler.php: the answer to an OPTIONS request. The response
-- is passed by reference, so it comes back beside what the method returns or throws.
pub mod Origin
pub mod Status
use t3api.Base.{
  ℕ, String, Bool, true, false, not, ◌&&◌, ◌||◌, Option, none, some, List, [], ◌∷◌, ◌++◌, map, ◌==◌,
  if◌then◌else◌,
}
use t3api.Base.Text.{strtolower, strtoupper, implode, in_array, concat, split_list}
use t3api.Exception.{Throwable, type_error}
use t3api.Result.{Result, ok, thrown}
use t3api.Php.{Value, str, Entries, end, entry}
use t3api.Php.Number.{text_of_int, trim}
use t3api.Http.{Request, get_header, Messages, standard}
use t3api.Cors.{CorsOptions, is_wildcard, is_allowed_origin}

-- `isWildcard` of a list of texts
abbrev wildcard_in : List String → Bool
wildcard_in = in_array "*"

module _ (http : Messages) where
  open http use {Response, new_response, with_header, without_header, with_status}

  -- What `handle` returns or throws, and the response that it leaves.
  abbrev pub Answer : Type 0
  Answer = Result (Option String) × Response

  abbrev set_credentials : CorsOptions → Response → Response
  set_credentials o r =
      if o.allow_credentials then with_header "Access-Control-Allow-Credentials" "true" r else r

  abbrev set_methods : List String → Response → Response
  set_methods [] r = r
  set_methods (m ∷ ms) r = with_header "Access-Control-Allow-Methods" (implode ", " (m ∷ ms)) r

  abbrev set_headers_to : Option String → Response → Response
  set_headers_to none r = r
  set_headers_to (some s) r = if s == "" then r else with_header "Access-Control-Allow-Headers" s r

  abbrev set_headers : Request → List String → Response → Response
  set_headers request [] r = r
  set_headers request (h ∷ hs) r =
      set_headers_to
        (if wildcard_in (h ∷ hs)
          then get_header "Access-Control-Request-Headers" request.headers
          else some (implode ", " (h ∷ hs)))
        r

  abbrev set_max_age : CorsOptions → Response → Response
  set_max_age o r = elim o.max_age [
    | none ↦ r
    | some age ↦ with_header "Access-Control-Max-Age" (text_of_int age) r
  ]

  -- The headers that are set whatever the origin.
  unfoldable pub set_general : CorsOptions → Request → Response → Response
  unfolding implode text_of_int
  set_general o request r =
      set_max_age o
        (set_headers request o.allow_headers (set_methods o.allow_methods (set_credentials o r)))

  -- the loop over the requested headers: the first that is not allowed
  unfoldable pub unauthorized : List String → List String → Option String
  unauthorized allowed [] = none
  unauthorized allowed (h ∷ hs) =
      let rest = unauthorized allowed hs in if in_array h allowed then rest else some h

  abbrev refuse : Option String → Response → Answer
  refuse none r = (ok none, r)
  refuse (some h) r =
      (ok (some (concat ("Unauthorized header " ∷ h ∷ []))), with_status 405 standard r)

  unfoldable pub check_headers : CorsOptions → Option String → Response → Answer
  unfolding unauthorized trim strtolower split_list
  check_headers o none r = (ok none, r)
  check_headers o (some given) r =
      let headers = strtolower (trim given) in
      if not (headers == "") && not (wildcard_in o.allow_headers)
      then refuse (unauthorized o.allow_headers (split_list headers)) r
      else (ok none, r)

  -- A method that is allowed, in another case than the client's, is listed as the client writes it.
  unfoldable pub name_method : CorsOptions → Option String → Response → Response
  unfolding implode
  name_method o none r =
      with_header "Access-Control-Allow-Methods" (implode ", " (o.allow_methods ++ "" ∷ [])) r
  name_method o (some method) r =
      if in_array method o.allow_methods
      then r
      else with_header "Access-Control-Allow-Methods"
          (implode ", " (o.allow_methods ++ method ∷ [])) r

  -- `strtoupper($method)`, which makes the empty text of a header that is missing
  abbrev pub upper_method : Option String → String
  upper_method none = strtoupper ""
  upper_method (some method) = strtoupper method

  -- the part that needs `Access-Control-Request-Method`
  unfoldable pub check_method : CorsOptions → Request → Option String → Response → Answer
  unfolding check_headers name_method strtoupper implode
  check_method o request method r =
      if not (in_array (upper_method method) o.allow_methods)
      then (ok none, with_status 405 standard r)
      else check_headers o (get_header "Access-Control-Request-Headers" request.headers)
          (name_method o method r)

  -- `$response instanceof ResponseInterface ? $response : new Response()`
  abbrev pub or_new : Option Response → Response
  or_new none = new_response
  or_new (some r) = r

  module _ (matches : String → String → Bool) where
    unfoldable pub check_origin : CorsOptions → Request → Option String → Response → Answer
    unfolding check_method is_allowed_origin
    check_origin o request none r = (thrown type_error, r)
    check_origin o request (some origin) r =
        if not (is_allowed_origin matches origin o)
        then (ok none, without_header "Access-Control-Allow-Origin" r)
        else check_method o request (get_header "Access-Control-Request-Method" request.headers)
            (with_header "Access-Control-Allow-Origin" origin r)

    -- `handle`
    unfoldable pub handle_options : CorsOptions → Request → Option Response → Answer
    unfolding check_origin set_general
    handle_options o request response =
        let r = or_new response in
        check_origin o request (get_header "Origin" request.headers) (set_general o request r)
