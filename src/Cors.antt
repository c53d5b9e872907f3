-- ===== src/Cors.antt =====
-- Classes/Configuration/CorsOptions.php, Classes/Service/CorsService.php,
-- Classes/Processor/CorsProcessor.php and Classes/OperationHandler/OptionsOperationHandler.php
pub mod Preflight
pub mod Laws
use t3api.Base.{
  String, Bool, true, false, not, ◌||◌, Option, none, some, List, [], ◌∷◌, ◌++◌, map, ◌==◌,
  if◌then◌else◌,
}
use t3api.Base.Int.{ℤ}
use t3api.Base.Text.{strtolower, strtoupper, implode}
use t3api.Php.{
  Value, null, bool, str, arr, Entries, end, entry, Fields, fields, get, to_bool, to_int, to_text,
}
use t3api.Http.{Request, get_header, Messages}

pub record CorsOptions : Type 0 where
  pub allow_credentials : Bool
  pub allow_origin : Entries
  pub allow_headers : List String
  pub allow_methods : List String
  pub expose_headers : List String
  pub max_age : Option ℤ
  pub origin_regex : Bool

-- `(array)$v`
abbrev cast_array : Value → Entries
cast_array (arr es) = es
cast_array null = end
cast_array v = entry "0" v end

-- `isset($options[$key]) ? (array)$options[$key] : []`
abbrev array_option : Option Value → Entries
array_option none = end
array_option (some v) = cast_array v

abbrev flag_option : Option Value → Bool
flag_option none = false
flag_option (some v) = to_bool v

-- The elements, which are texts, as `array_map` with a function on texts and `implode` read them
abbrev texts : Entries → List String
texts es = map (λ e. to_text e.1) (fields es)

abbrev age_option : Option Value → Option ℤ
age_option none = none
age_option (some v) = some (to_int v)

-- the constructor of `CorsOptions`
unfoldable pub create_options : Fields → CorsOptions
create_options o = record {
  allow_credentials = flag_option (get "allowCredentials" o);
  allow_origin = array_option (get "allowOrigin" o);
  allow_headers =
      map strtolower (
        texts (array_option (get "allowHeaders" o))
        ++ texts (array_option (get "simpleHeaders" o)));
  allow_methods = map strtoupper (texts (array_option (get "allowMethods" o)));
  expose_headers = texts (array_option (get "exposeHeaders" o));
  max_age = age_option (get "maxAge" o);
  origin_regex = flag_option (get "originRegex" o);
}

-- `in_array($s, $array, true)` for a text
unfoldable pub in_entries : String → Entries → Bool
in_entries s end = false
in_entries s (entry k (str t) rest) = t == s || in_entries s rest
in_entries s (entry k _ rest) = in_entries s rest

unfoldable pub is_wildcard : Value → Bool
unfolding in_entries
is_wildcard (bool b) = b
is_wildcard (arr es) = in_entries "*" es
is_wildcard (str s) = s == "*"
is_wildcard _ = false

-- `isCorsRequest`
unfoldable pub is_cors_request : Request → Bool
is_cors_request request = elim (get_header "Origin" request.headers) [
  | none ↦ false
  | some origin ↦ not (origin == request.scheme_and_http_host)
]

-- `isPreflightRequest`
unfoldable pub is_preflight_request : Request → Bool
is_preflight_request request = request.method == "OPTIONS"

-- `preg_match` of PHP: whether the expression, without regard to case, matches the text
module _ (matches : String → String → Bool) where
  -- the loop over the expressions
  unfoldable pub any_matches : String → Entries → Bool
  any_matches origin end = false
  any_matches origin (entry k v rest) = matches (to_text v) origin || any_matches origin rest

  unfoldable pub is_allowed_origin : String → CorsOptions → Bool
  unfolding is_wildcard any_matches
  is_allowed_origin origin o =
      if is_wildcard (arr o.allow_origin)
      then true
      else if o.origin_regex
      then any_matches origin o.allow_origin
      else in_entries origin o.allow_origin

module _ (http : Messages) where
  open http use {Response, with_header, without_header, with_status}

  abbrev pub allow_credentials_header : Bool → Response → Response
  allow_credentials_header true r = with_header "Access-Control-Allow-Credentials" "true" r
  allow_credentials_header false r = r

  abbrev pub expose_headers_header : List String → Response → Response
  expose_headers_header [] r = r
  expose_headers_header (h ∷ hs) r =
      with_header "Access-Control-Expose-Headers" (strtolower (implode ", " (h ∷ hs))) r

  module _ (matches : String → String → Bool) where
    -- what `process` does once it knows the origin
    unfoldable pub add_cors_headers : CorsOptions → String → Response → Response
    add_cors_headers o origin response =
        let checked =
          if is_allowed_origin matches origin o
          then response
          else without_header "Access-Control-Allow-Origin" response in
        let allowed = with_header "Access-Control-Allow-Origin" origin checked in
        expose_headers_header o.expose_headers
          (allow_credentials_header o.allow_credentials allowed)

    -- `CorsProcessor::process`
    unfoldable pub process : CorsOptions → Request → Response → Response
    unfolding is_cors_request is_preflight_request
    process o request response =
        if not (is_cors_request request) || is_preflight_request request
        then response
        else elim (get_header "Origin" request.headers) [
          | none ↦ response
          | some origin ↦ add_cors_headers o origin response
        ]
