-- ===== src/Domain/Pagination.antt =====
-- Classes/Domain/Model/Pagination.php
pub mod Inheritance
pub mod Bounds
use t3api.Base.{
  ℕ, String, Bool, true, false, ◌&&◌, Option, none, some, List, [], ◌∷◌, if◌then◌else◌,
}
use t3api.Base.Int.{ℤ, pos, ◌-ℤ◌, ◌*ℤ◌, eqb_ℤ, min_ℤ, checked}
use t3api.Exception.{uninitialized, type_error, value_error}
use t3api.Result.{Result, ok, thrown, ◌>>=◌}
use t3api.Php.{Value, Fields, get, to_bool, to_int, to_boolean}
use t3api.Domain.Settings.{set_or, text_or}

pub record Pagination : Type 0 where
  pub server_enabled : Bool
  pub client_enabled : Bool
  pub items_per_page : Option ℤ
  pub maximum_items_per_page : ℤ
  pub client_items_per_page : Bool
  pub items_per_page_parameter_name : String
  pub enabled_parameter_name : String
  pub page_parameter_name : String
  pub parameters : Fields

abbrev parameters_of : Option Pagination → Fields
parameters_of none = []
parameters_of (some p) = p.parameters

-- `Pagination::create`
unfoldable pub create : Fields → Option Pagination → Result Pagination
create attributes base = do
  server ← set_or (get "pagination_enabled" attributes) to_boolean (λ p. p.server_enabled) base
  client ←
      set_or (get "pagination_client_enabled" attributes) to_boolean (λ p. p.client_enabled) base
  items ←
      set_or (get "pagination_items_per_page" attributes) (λ v. some (to_int v))
        (λ p. p.items_per_page) base
  most ←
      set_or (get "maximum_items_per_page" attributes) to_int (λ p. p.maximum_items_per_page) base
  client_items ←
      set_or (get "pagination_client_items_per_page" attributes) to_boolean
        (λ p. p.client_items_per_page) base
  enabled_name ←
      text_or (get "enabled_parameter_name" attributes) (λ p. p.enabled_parameter_name) base
  items_name ←
      text_or (get "items_per_page_parameter_name" attributes)
        (λ p. p.items_per_page_parameter_name) base
  page_name ← text_or (get "page_parameter_name" attributes) (λ p. p.page_parameter_name) base
  ok (record {
    server_enabled = server;
    client_enabled = client;
    items_per_page = items;
    maximum_items_per_page = most;
    client_items_per_page = client_items;
    items_per_page_parameter_name = items_name;
    enabled_parameter_name = enabled_name;
    page_parameter_name = page_name;
    parameters = parameters_of base;
  })

-- `setParametersFromRequest`, given the parsed query of the request
unfoldable pub set_parameters_from_request : Fields → Pagination → Pagination
set_parameters_from_request query p = record p { parameters = query }

unfoldable pub is_enabled : Pagination → Bool
is_enabled p =
    if p.client_enabled
    then elim (get p.enabled_parameter_name p.parameters) [
      | none ↦ p.server_enabled
      | some v ↦ to_bool v
    ]
    else p.server_enabled

unfoldable pub get_client_number_of_items_per_page : Pagination → Option ℤ
get_client_number_of_items_per_page p =
    if p.client_items_per_page
    then elim (get p.items_per_page_parameter_name p.parameters) [
      | none ↦ none
      | some v ↦ some (to_int v)
    ]
    else none

-- `array_filter`: what is not null and not 0
unfoldable pub given_items : List (Option ℤ) → List ℤ
given_items [] = []
given_items (none ∷ rest) = given_items rest
given_items (some n ∷ rest) =
    let others = given_items rest in if eqb_ℤ n (pos 0) then others else n ∷ others

-- `min` of an array
unfoldable pub min_of : List ℤ → Result ℤ
min_of [] = thrown value_error
min_of (n ∷ []) = ok n
min_of (n ∷ m ∷ rest) = do k ← min_of (m ∷ rest); ok (min_ℤ n k)

-- `$this->getClientNumberOfItemsPerPage() ?? $this->itemsPerPage`
unfoldable pub requested_items : Pagination → Option ℤ
unfolding get_client_number_of_items_per_page
requested_items p = elim (get_client_number_of_items_per_page p) [
  | none ↦ p.items_per_page
  | some n ↦ some n
]

unfoldable pub get_number_of_items_per_page : Pagination → Result ℤ
unfolding given_items min_of
get_number_of_items_per_page p =
    min_of (given_items (some p.maximum_items_per_page ∷ requested_items p ∷ []))

unfoldable pub get_page : Pagination → ℤ
get_page p = elim (get p.page_parameter_name p.parameters) [ none ↦ pos 1 | some v ↦ to_int v ]

-- A product or difference that leaves the range of `int` is a float, which cannot be returned.
abbrev pub int_result : Option ℤ → Result ℤ
int_result none = thrown type_error
int_result (some z) = ok z

unfoldable pub get_offset : Pagination → Result ℤ
unfolding ◌-ℤ◌ ◌*ℤ◌
get_offset p = do
  items ← get_number_of_items_per_page p
  before ← int_result (checked (get_page p -ℤ pos 1))
  int_result (checked (before *ℤ items))
