-- ===== src/Exception.antt =====
-- Classes/Exception: the exceptions of the extension, and the other throwables that its code raises
-- or lets pass.
pub mod Violations
use t3api.Base.{ℕ, String, Option, none, some}
use t3api.Base.Int.{ℤ}

-- `code` is the number that the source gives the exception.
pub data ApiException : Type 0 where
  method_not_allowed : (code : ℕ) → ApiException
  operation_not_allowed : (code : ℕ) → ApiException
  resource_not_found : (resource_type : String) → (uid : ℤ) → (code : ℕ) → ApiException
  route_not_found : (code : ℕ) → ApiException
  validation_failed : (code : ℕ) → ApiException

-- Those of PHP with the source's number, and those of the framework and the listeners.
pub data Throwable : Type 0 where
  api : ApiException → Throwable
  invalid_argument : (code : ℕ) → Throwable
  runtime : (code : ℕ) → Throwable
  type_error : Throwable
  value_error : Throwable
  division_by_zero : Throwable
  uninitialized : Throwable
  -- an `Error`, such as the call of a method of `null`
  error : Throwable
  foreign : ℕ → Throwable

-- `getStatusCode`
unfoldable pub get_status_code : ApiException → ℕ
get_status_code (method_not_allowed _) = 405
get_status_code (operation_not_allowed _) = 403
get_status_code (resource_not_found _ _ _) = 404
get_status_code (route_not_found _) = 404
get_status_code (validation_failed _) = 400

-- `getTitle`: the key that the constructor translates; a translation is taken to exist.
unfoldable pub get_title : ApiException → String
get_title (method_not_allowed _) = "exception.method_not_allowed.title"
get_title (operation_not_allowed _) = "exception.operation_not_allowed.title"
get_title (resource_not_found _ _ _) = "exception.resource_not_found.title"
get_title (route_not_found _) = "exception.route_not_found.title"
get_title (validation_failed _) = "exception.validation.title"

-- The status that `getOpenApiResponse` documents; two classes have no such method.
unfoldable pub get_open_api_status : ApiException → Option ℕ
get_open_api_status (method_not_allowed _) = none
get_open_api_status (operation_not_allowed _) = some 404
get_open_api_status (resource_not_found _ _ _) = some 404
get_open_api_status (route_not_found _) = none
get_open_api_status (validation_failed _) = some 400
