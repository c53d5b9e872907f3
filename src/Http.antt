-- ===== src/Http.antt =====
-- The messages of the HTTP libraries (PSR-7 and HttpFoundation of Symfony), which are not part of the
-- repository: requests as the code reads them, and responses as an interface with the documented laws.
use t3api.Base.{
  ℕ, String, Option, none, some, List, [], ◌∷◌, ◌==◌, if◌then◌else◌, ◌≡◌, refl, eq_iff, arith,
}
use t3api.Base.Text.{strtolower}
use t3api.Php.{Fields}

pub record Request : Type 0 where
  pub method : String
  -- the names of the headers are in lower case
  pub headers : List (String × String)
  pub scheme_and_http_host : String
  pub content : String
  -- the parsed query string
  pub query : Fields

-- `$request->headers->get($name)`
unfoldable pub get_header : String → List (String × String) → Option String
get_header name [] = none
get_header name ((k, v) ∷ rest) = if k == strtolower name then some v else get_header name rest

-- The reason phrase of a status: the standard one, or a translated title.
pub data Reason : Type 0 where
  standard : Reason
  translated : String → Reason

-- An immutable response. A header is found by its name, in whatever case.
pub record Messages : Type 1 where
  pub Response : Type 0
  pub new_response : Response
  pub with_header : String → String → Response → Response
  pub without_header : String → Response → Response
  pub with_status : ℕ → Reason → Response → Response
  pub header : String → Response → Option String
  pub status : Response → ℕ
  pub header-with_header :
      (n m v : String) (r : Response)
      → header m (with_header n v r) ≡ (if strtolower n == strtolower m then some v else header m r)
  pub header-without_header :
      (n m : String) (r : Response)
      → header m (without_header n r) ≡ (if strtolower n == strtolower m then none else header m r)
  pub header-with_status :
      (m : String) (c : ℕ) (p : Reason) (r : Response) → header m (with_status c p r) ≡ header m r
  pub status-with_header : (n v : String) (r : Response) → status (with_header n v r) ≡ status r
  pub status-without_header : (n : String) (r : Response) → status (without_header n r) ≡ status r
  pub status-with_status : (c : ℕ) (p : Reason) (r : Response) → status (with_status c p r) ≡ c
  pub status-new : status new_response ≡ 200

-- Responses that meet the laws: a status and a list of headers.
pub record PlainResponse : Type 0 where
  pub code : ℕ
  pub fields : List (String × String)

abbrev without : String → List (String × String) → List (String × String)
without n [] = []
without n ((k, v) ∷ rest) =
    let others = without n rest in if k == strtolower n then others else (k, v) ∷ others

pub get_header-without :
    (n m : String) (hs : List (String × String))
    → get_header m (without n hs) ≡ (if strtolower n == strtolower m then none else get_header m hs)
unfolding get_header
get_header-without n m [] = ground arith
get_header-without n m ((k, v) ∷ rest) = ground (
  arith,
  get_header-without n m rest,
  eq_iff k (strtolower n),
  eq_iff k (strtolower m),
  eq_iff (strtolower n) (strtolower m),
)

pub get_header-with :
    (n m v : String) (hs : List (String × String))
    → get_header m ((strtolower n, v) ∷ without n hs)
      ≡ (if strtolower n == strtolower m then some v else get_header m hs)
unfolding get_header
get_header-with n m v hs = ground (arith, get_header-without n m hs)

abbrev pub plain_messages : Messages
plain_messages = record {
  Response = PlainResponse;
  new_response = record { code = 200; fields = [] };
  with_header = λ n v r. record { code = r.code; fields = (strtolower n, v) ∷ without n r.fields };
  without_header = λ n r. record { code = r.code; fields = without n r.fields };
  with_status = λ c p r. record { code = c; fields = r.fields };
  header = λ m r. get_header m r.fields;
  status = λ r. r.code;
  header-with_header = λ n m v r. get_header-with n m v r.fields;
  header-without_header = λ n m r. get_header-without n m r.fields;
  header-with_status = λ m c p r. refl;
  status-with_header = λ n v r. refl;
  status-without_header = λ n r. refl;
  status-with_status = λ c p r. refl;
  status-new = refl;
}
