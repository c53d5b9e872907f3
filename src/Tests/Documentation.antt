-- ===== src/Tests/Documentation.antt =====
-- Tests of what is documented for the operations.
use t3api.Domain.Filter.{ApiFilter, order_filter, search_filter}
use t3api.OpenApi.Filters.{get_filter_parameters_for_operation, get_paths, summary}
use t3api.Result.{ok}
use t3api.Base.{map, All, true, some, none, [], ◌∷◌, ◌≡◌, refl}
use t3api.Php.{str, Fields}
use t3api.Domain.Pagination.{Pagination}
use t3api.Domain.Operation.{Operation, item, collection}
use t3api.OpenApi.{
  text, query_parameter, in_path, integer, get_path_parameters_for_operation,
  get_pagination_parameters_for_operation, get_operation_responses,
}
use t3api.OpenApi.Documented.{IsSame, paged, paged-documented}
use t3api.Tests.Samples.{classes, operation, pagination, query}

abbrev given : Pagination
given = record pagination { client_items_per_page = true }

abbrev cars : Operation
cars = operation "GET" "" (collection given [])

-- Only the last two are documented.
abbrev first_request : Fields
first_request = ("pagination", str "0") ∷ ("page", str "2") ∷ ("itemsPerPage", str "5") ∷ []

abbrev second_request : Fields
second_request = ("itemsPerPage", str "5") ∷ ("page", str "2") ∷ ("color", str "red") ∷ []

documented-IsSame :
    All (IsSame first_request second_request) (get_pagination_parameters_for_operation cars)
unfolding get_pagination_parameters_for_operation t3api.Php.get
documented-IsSame = (refl, (refl, tt))

paged-documented_example : paged first_request given query ≡ paged second_request given query
paged-documented_example =
    paged-documented first_request second_request cars given [] query refl refl documented-IsSame

abbrev car : Operation
car = record (operation "PUT" "false" item) { path = "/cars/{id}" }

documentation_test :
    (get_path_parameters_for_operation car
      ≡ record { name = "id"; location = in_path; required = true; schema = integer none none }
        ∷ [])
    × (get_pagination_parameters_for_operation car ≡ [])
    × (get_operation_responses car ≡ some 200 ∷ some 404 ∷ some 400 ∷ some 404 ∷ [])
unfolding get_path_parameters_for_operation get_pagination_parameters_for_operation
    get_operation_responses
documentation_test = (refl, refl, refl)

abbrev by_price : ApiFilter
by_price = record {
  filter_class = order_filter;
  strategy = record { name = ""; condition = none };
  property = "price";
  arguments = ("orderParameterName", str "order") ∷ [];
}

abbrev by_name : ApiFilter
by_name = record {
  filter_class = search_filter;
  strategy = record { name = ""; condition = none };
  property = "maker.name";
  arguments = [];
}

abbrev filtered : Operation
filtered = operation "GET" "" (collection given (by_price ∷ by_name ∷ by_name ∷ []))

filters_test :
    (get_filter_parameters_for_operation classes (λ c f. none) (λ ps. ps) filtered
      ≡ ok (
          query_parameter "order[price]" (text ("asc" ∷ "desc" ∷ []))
          ∷ query_parameter "maker_name" (text [])
          ∷ []))
    × (map (λ p. p.0) (get_paths (car ∷ filtered ∷ car ∷ [])) ≡ "/cars/{id}" ∷ "/cars" ∷ [])
    × (summary car ≡ some "Replaces the resource")
unfolding get_filter_parameters_for_operation get_paths summary t3api.Php.get
    t3api.Base.Text.dots_to_underscores
filters_test = (refl, refl, refl)
