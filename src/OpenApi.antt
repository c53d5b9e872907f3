-- ===== src/OpenApi.antt =====
-- Classes/Service/OpenApiBuilder.php: the parameters and the responses that are documented for an operation.
pub mod Documented
pub mod Components
pub mod Filters
pub mod Rounds
pub mod Sound
pub mod Collect
pub mod Closed
pub mod Resolved
use t3api.Base.{
  ℕ, String, Bool, true, false, not, ◌&&◌, ◌||◌, Option, none, some, List, [], ◌∷◌, ◌++◌, ◌==◌,
  if◌then◌else◌,
}
use t3api.Base.Int.{ℤ, pos}
use t3api.Base.Text.{str_contains}
use t3api.Exception.{
  ApiException, resource_not_found, validation_failed, operation_not_allowed, get_open_api_status,
}
use t3api.Domain.Pagination.{Pagination}
use t3api.Domain.Operation.{Kind, Operation, item, collection, is_method}

pub data Location : Type 0 where
  in_path : Location
  in_query : Location

-- `Schema::integer()` with its bounds, `Schema::boolean()`, `Schema::number()`, and `Schema::string()` with the
-- texts that are allowed, if only some are
pub data Schema : Type 0 where
  number : Schema
  text : (choices : List String) → Schema
  integer : (minimum maximum : Option ℤ) → Schema
  boolean : Schema

-- A parameter but for its description, which is text.
pub record Parameter : Type 0 where
  pub name : String
  pub location : Location
  pub required : Bool
  pub schema : Schema

abbrev pub query_parameter : String → Schema → Parameter
query_parameter name schema = record {
  name = name;
  location = in_query;
  required = false;
  schema = schema;
}

unfoldable pub get_path_parameters_for_operation : Operation → List Parameter
unfolding str_contains
get_path_parameters_for_operation o = elim o.kind [
  | collection _ _ ↦ []
  | item ↦
      if str_contains o.path "{id}"
      then record { name = "id"; location = in_path; required = true; schema = integer none none }
        ∷ []
      else []
]

abbrev enabled_parameters : Pagination → List Parameter
enabled_parameters p =
    if p.client_enabled then query_parameter p.enabled_parameter_name boolean ∷ [] else []

abbrev items_parameters : Pagination → List Parameter
items_parameters p =
    if p.client_items_per_page
    then query_parameter p.items_per_page_parameter_name
        (integer (some (pos 0)) (some p.maximum_items_per_page))
      ∷ []
    else []

-- the parameters of a collection that can be read
abbrev pub pagination_parameters : Pagination → List Parameter
pagination_parameters p =
    if p.client_enabled || p.server_enabled
    then enabled_parameters p
      ++ query_parameter p.page_parameter_name (integer (some (pos 0)) none) ∷ items_parameters p
    else []

unfoldable pub get_pagination_parameters_for_operation : Operation → List Parameter
get_pagination_parameters_for_operation o = elim o.kind [
  | item ↦ []
  | collection p _ ↦ if is_method "GET" o then pagination_parameters p else []
]

abbrev is_item : Kind → Bool
is_item item = true
is_item (collection _ _) = false

abbrev documented_if : Bool → ApiException → List (Option ℕ)
documented_if test e = if test then get_open_api_status e ∷ [] else []

-- The status codes of the responses.
unfoldable pub get_operation_responses : Operation → List (Option ℕ)
unfolding get_open_api_status
get_operation_responses o =
    some (if is_method "POST" o then 201 else 200)
      ∷ documented_if (is_item o.kind) (resource_not_found "" (pos 0) 0)
    ++ documented_if (is_method "PATCH" o || is_method "POST" o || is_method "PUT" o)
        (validation_failed 0)
    ++ documented_if (not (o.security == "") || not (o.security_post_denormalize == ""))
        (operation_not_allowed 0)
