-- ===== src/Cors/Laws.antt =====
-- What the CORS processor does to a response.
use t3api.Base.{
  String, ◌≡◌, ◌≢◌, refl, Bool, true, false, none, some, arith, eq_iff, ◌⊎◌, [], ◌∷◌, List,
}
use t3api.Base.Text.{strtolower}
use t3api.Http.{Request, get_header, Messages}
use t3api.Cors.{
  allow_credentials_header, expose_headers_header, CorsOptions, add_cors_headers, process,
}

module _ (http : Messages) (matches : String → String → Bool) where
  open http use {
    Response, header, status, header-with_header, header-without_header, status-with_header,
    status-without_header,
  }

  -- The response is left alone if the request has no `Origin`, or names the host itself, or is an
  -- OPTIONS request.
  process_unchanged :
      (o : CorsOptions) (request : Request) (r : Response)
      → (get_header "Origin" request.headers ≡ none)
        ⊎ ((get_header "Origin" request.headers ≡ some request.scheme_and_http_host)
            ⊎ (request.method ≡ "OPTIONS"))
      → process http matches o request r ≡ r
  unfolding process
  process_unchanged o request r h = ground (
    arith,
    eq_iff request.method "OPTIONS",
    eq_iff request.scheme_and_http_host request.scheme_and_http_host,
  )

  header-expose_headers :
      (hs : List String) (r : Response)
      → header "Access-Control-Allow-Origin" (expose_headers_header http hs r)
        ≡ header "Access-Control-Allow-Origin" r
  unfolding strtolower
  header-expose_headers [] r = refl
  header-expose_headers (h ∷ hs) r = simp header-with_header

  header-allow_credentials :
      (b : Bool) (r : Response)
      → header "Access-Control-Allow-Origin" (allow_credentials_header http b r)
        ≡ header "Access-Control-Allow-Origin" r
  unfolding strtolower
  header-allow_credentials true r = simp header-with_header
  header-allow_credentials false r = refl

  header-add_cors_headers :
      (o : CorsOptions) (origin : String) (r : Response)
      → header "Access-Control-Allow-Origin" (add_cors_headers http matches o origin r)
        ≡ some origin
  unfolding add_cors_headers strtolower
  header-add_cors_headers o origin r =
      simp (header-expose_headers, header-allow_credentials, header-with_header)

  -- A request that is not an OPTIONS request, and whose header Origin is there and is not the host of the
  -- request itself, gets its own origin back as the allowed one, whatever origins are configured.
  pub process_reflects_origin :
      (o : CorsOptions) (request : Request) (origin : String) (r : Response)
      → get_header "Origin" request.headers ≡ some origin
      → origin ≢ request.scheme_and_http_host
      → request.method ≢ "OPTIONS"
      → header "Access-Control-Allow-Origin" (process http matches o request r) ≡ some origin
  unfolding process
  process_reflects_origin o request origin r given foreign plain = rw given (
      ground (
        arith,
        eq_iff origin request.scheme_and_http_host,
        eq_iff request.method "OPTIONS",
        header-add_cors_headers o origin r,
      ))
