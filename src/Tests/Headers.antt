-- ===== src/Tests/Headers.antt =====
-- Tests of the CORS processor and of the answers to OPTIONS requests.
use t3api.Base.{
  String, ◌≡◌, refl, Bool, true, false, Option, none, some, List, [], ◌∷◌, arith, if◌then◌else◌,
  inl, inr,
}
use t3api.Http.{Request, get_header, plain_messages, PlainResponse}
use t3api.Cors.{process, is_allowed_origin}
use t3api.Cors.Laws.{process_reflects_origin}
use t3api.Cors.Preflight.{handle_options}
use t3api.Cors.Preflight.{or_new}
use t3api.Cors.Preflight.Status.{accepts, status-handle_options}
use t3api.Cors.Preflight.Origin.{allowed_origin, allowed_origin-handle_options}
use t3api.Tests.Samples.{cors, request, differ}

abbrev no_match : String → String → Bool
no_match expression text = false

abbrev start : PlainResponse
start = plain_messages.new_response

abbrev shop : String
shop = "https://shop.example.org"

abbrev stranger : String
stranger = "https://evil.example.org"

abbrev from_stranger : Request
from_stranger = request "GET" (("origin", stranger) ∷ [])

strange : get_header "Origin" from_stranger.headers ≡ some stranger
unfolding get_header t3api.Base.Text.strtolower
strange = refl

process_reflects_origin_example :
    plain_messages.header "Access-Control-Allow-Origin"
      (process plain_messages no_match cors from_stranger start)
    ≡ some stranger
process_reflects_origin_example =
    process_reflects_origin plain_messages no_match cors from_stranger stranger start strange
      (differ stranger "https://api.example.org" refl) (differ "GET" "OPTIONS" refl)

abbrev preflight : Request
preflight = request "OPTIONS" (("origin", shop) ∷ ("access-control-request-method", "put") ∷ [])

of_shop : get_header "Origin" preflight.headers ≡ some shop
unfolding get_header t3api.Base.Text.strtolower
of_shop = refl

allowed_origin-handle_options_example :
    allowed_origin plain_messages
      (handle_options plain_messages no_match cors preflight (some start)).1
    ≡ (if is_allowed_origin no_match shop cors then some shop else none)
allowed_origin-handle_options_example =
    allowed_origin-handle_options plain_messages no_match cors preflight (some start) shop of_shop

welcome : is_allowed_origin no_match shop cors ≡ true
unfolding is_allowed_origin
welcome = refl

to_put : get_header "Access-Control-Request-Method" preflight.headers ≡ some "put"
unfolding get_header t3api.Base.Text.strtolower
to_put = refl

status-handle_options_example :
    plain_messages.status (handle_options plain_messages no_match cors preflight (some start)).1 ≡ (
      if accepts cors "put" (get_header "Access-Control-Request-Headers" preflight.headers)
      then plain_messages.status (or_new plain_messages (some start))
      else 405)
status-handle_options_example =
    status-handle_options plain_messages no_match cors preflight (some start) shop "put" of_shop
      welcome to_put
