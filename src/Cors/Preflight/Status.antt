-- ===== src/Cors/Preflight/Status.antt =====
-- The status of the answer to an OPTIONS request.
use t3api.Base.{
  String, ◌≡◌, ◌↔◌, refl, Bool, true, ◌&&◌, ◌||◌, Option, none, some, ◌==◌, if◌then◌else◌, arith,
  inl, inr, [], ◌∷◌, List, Bool-cases, Option-cases, ◌∙◌, all,
}
use t3api.Base.Text.{strtolower, strtoupper, implode, in_array, split_list}
use t3api.Php.Number.{trim}
use t3api.Http.{Request, get_header, Messages, standard}
use t3api.Result.{thrown}
use t3api.Exception.{type_error}
use t3api.Cors.{CorsOptions, is_allowed_origin}
use t3api.Cors.Preflight.{
  name_method, set_general, check_headers, check_method, check_origin, handle_options, unauthorized,
  or_new, set_credentials, set_methods, set_headers, set_headers_to, set_max_age,
}

-- Which requests are accepted, read off the options: the method in upper case is allowed, and every
-- requested header, in lower case, or all of them by the wildcard.
abbrev pub accepts_headers : CorsOptions → Option String → Bool
accepts_headers o none = true
accepts_headers o (some given) =
    strtolower (trim given) == ""
    || in_array "*" o.allow_headers
    || all (λ h. in_array h o.allow_headers) (split_list (strtolower (trim given)))

abbrev pub accepts : CorsOptions → String → Option String → Bool
accepts o method headers = in_array (strtoupper method) o.allow_methods && accepts_headers o headers

module _ (http : Messages) where
  open http use {
    Response, new_response, status, status-with_header, status-without_header, status-with_status,
    status-new, with_status,
  }

  status-set_headers_to :
      (o : Option String) (r : Response) → status (set_headers_to http o r) ≡ status r
  status-set_headers_to none r = refl
  status-set_headers_to (some s) r =
      ground (arith, status-with_header "Access-Control-Allow-Headers" s r)

  status-set_headers :
      (request : Request) (hs : List String) (r : Response)
      → status (set_headers http request hs r) ≡ status r
  status-set_headers request [] r = refl
  status-set_headers request (h ∷ hs) r =
      status-set_headers_to
        (if in_array "*" (h ∷ hs)
          then get_header "Access-Control-Request-Headers" request.headers
          else some (implode ", " (h ∷ hs)))
        r

  status-set_methods : (ms : List String) (r : Response) → status (set_methods http ms r) ≡ status r
  status-set_methods [] r = refl
  status-set_methods (m ∷ ms) r = simp status-with_header

  status-set_credentials :
      (o : CorsOptions) (r : Response) → status (set_credentials http o r) ≡ status r
  status-set_credentials o r =
      ground (arith, status-with_header "Access-Control-Allow-Credentials" "true" r)

  status-set_max_age : (o : CorsOptions) (r : Response) → status (set_max_age http o r) ≡ status r
  status-set_max_age o r = elim (Option-cases o.max_age) [
    | inl unset ↦ rw unset
    | inr (age, given) ↦ rw given (simp status-with_header)
  ]

  status-set_general :
      (o : CorsOptions) (request : Request) (r : Response)
      → status (set_general http o request r) ≡ status r
  unfolding set_general
  status-set_general o request r =
      status-set_max_age o _
      ∙ status-set_headers request o.allow_headers _
      ∙ status-set_methods o.allow_methods _
      ∙ status-set_credentials o r

  unauthorized-eq-none_iff :
      (allowed hs : List String)
      → (unauthorized http allowed hs ≡ none) ↔ (all (λ h. in_array h allowed) hs ≡ true)
  unfolding unauthorized
  unauthorized-eq-none_iff allowed [] = ground arith
  unauthorized-eq-none_iff allowed (h ∷ hs) = ground (arith, unauthorized-eq-none_iff allowed hs)

  status-check_headers :
      (o : CorsOptions) (headers : Option String) (r : Response)
      → status (check_headers http o headers r).1
        ≡ (if accepts_headers o headers then status r else 405)
  unfolding check_headers
  status-check_headers o none r = refl
  status-check_headers o (some given) r =
      let hs = split_list (strtolower (trim given)) in
      ground (arith, unauthorized-eq-none_iff o.allow_headers hs, status-with_status 405 standard r)

  status-name_method :
      (o : CorsOptions) (method : String) (r : Response)
      → status (name_method http o (some method) r) ≡ status r
  unfolding name_method
  status-name_method o method r = elim (Bool-cases (in_array method o.allow_methods)) [
    | inl listed ↦ rw listed
    | inr other ↦ rw other (simp status-with_header)
  ]

  status-check_method :
      (o : CorsOptions) (request : Request) (method : String) (r : Response)
      → status (check_method http o request (some method) r).1 ≡ (
          if accepts o method (get_header "Access-Control-Request-Headers" request.headers)
          then status r
          else 405)
  unfolding check_method
  status-check_method o request method r =
      elim (Bool-cases (in_array (strtoupper method) o.allow_methods)) [
        | inl listed ↦ rw listed (simp (status-check_headers, status-name_method))
        | inr other ↦ rw other (simp status-with_status)
      ]

  -- For an allowed origin and a given method the answer keeps the status of the response if the method
  -- and the requested headers are acceptable to the options, and has status 405 otherwise.
  pub status-handle_options :
      (matches : String → String → Bool) (o : CorsOptions) (request : Request)
      (response : Option Response) (origin method : String)
      → get_header "Origin" request.headers ≡ some origin
      → is_allowed_origin matches origin o ≡ true
      → get_header "Access-Control-Request-Method" request.headers ≡ some method
      → status (handle_options http matches o request response).1 ≡ (
          if accepts o method (get_header "Access-Control-Request-Headers" request.headers)
          then status (or_new http response)
          else 405)
  unfolding handle_options check_origin
  status-handle_options matches o request response origin method from allowed given =
      rw (from, allowed, given) (simp (status-check_method, status-with_header, status-set_general))

  -- Without the header `Origin` the handler throws a TypeError.
  handle_options_throws :
      (matches : String → String → Bool) (o : CorsOptions) (request : Request)
      (response : Option Response)
      → get_header "Origin" request.headers ≡ none
      → (handle_options http matches o request response).0 ≡ thrown type_error
  unfolding handle_options check_origin
  handle_options_throws matches o request response e = rw e
