-- ===== src/Cors/Preflight/Origin.antt =====
-- The origin that the answer to an OPTIONS request allows.
use t3api.Base.{
  String, ◌≡◌, refl, Bool, Option, none, some, if◌then◌else◌, inl, inr, Bool-cases, not, if_elim,
  ◌∙◌,
}
use t3api.Base.Text.{strtolower, in_array}
use t3api.Http.{Request, get_header, Messages, standard}
use t3api.Cors.{CorsOptions, is_allowed_origin}
use t3api.Cors.Preflight.{
  Answer, name_method, set_general, check_headers, check_method, check_origin, handle_options,
  refuse, or_new, upper_method,
}

module _ (http : Messages) where
  open http use {
    Response, new_response, header, status, header-with_header, header-without_header,
    header-with_status, with_status,
  }

  -- the origin that a response allows
  abbrev pub allowed_origin : Response → Option String
  allowed_origin r = header "Access-Control-Allow-Origin" r

  origin-refuse :
      (h : Option String) (r : Response) → allowed_origin (refuse http h r).1 ≡ allowed_origin r
  origin-refuse none r = refl
  origin-refuse (some h) r = simp header-with_status

  origin-check_headers :
      (o : CorsOptions) (given : Option String) (r : Response)
      → allowed_origin (check_headers http o given r).1 ≡ allowed_origin r
  unfolding check_headers
  origin-check_headers o none r = refl
  origin-check_headers o (some given) r =
      if_elim (λ (a : Answer http). allowed_origin a.1 ≡ allowed_origin r) _ (origin-refuse _ r)
        refl

  origin-name_method :
      (o : CorsOptions) (method : Option String) (r : Response)
      → allowed_origin (name_method http o method r) ≡ allowed_origin r
  unfolding name_method strtolower
  origin-name_method o none r = simp header-with_header
  origin-name_method o (some method) r = elim (Bool-cases (in_array method o.allow_methods)) [
    | inl listed ↦ rw listed
    | inr other ↦ rw other (simp header-with_header)
  ]

  origin-check_method :
      (o : CorsOptions) (request : Request) (method : Option String) (r : Response)
      → allowed_origin (check_method http o request method r).1 ≡ allowed_origin r
  unfolding check_method
  origin-check_method o request method r =
      if_elim (λ (a : Answer http). allowed_origin a.1 ≡ allowed_origin r)
        (not (in_array (upper_method http method) o.allow_methods))
        (header-with_status "Access-Control-Allow-Origin" 405 standard r)
        (origin-check_headers o (get_header "Access-Control-Request-Headers" request.headers)
            (name_method http o method r)
          ∙ origin-name_method o method r)

  -- For a request with an `Origin` the answer allows this origin if it is configured, and no origin at
  -- all otherwise, also where the method or a header is refused.
  pub allowed_origin-handle_options :
      (matches : String → String → Bool) (o : CorsOptions) (request : Request)
      (response : Option Response) (origin : String)
      → get_header "Origin" request.headers ≡ some origin
      → allowed_origin (handle_options http matches o request response).1
        ≡ (if is_allowed_origin matches origin o then some origin else none)
  unfolding handle_options check_origin strtolower
  allowed_origin-handle_options matches o request response origin given =
      rw given (elim (Bool-cases (is_allowed_origin matches origin o)) [
        | inl allowed ↦ rw allowed (
            origin-check_method o request
              (get_header "Access-Control-Request-Method" request.headers)
              (http.with_header "Access-Control-Allow-Origin" origin
                (set_general http o request (or_new http response)))
            ∙ simp header-with_header)
        | inr denied ↦ rw denied (simp header-without_header)
      ])
