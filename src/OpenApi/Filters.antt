-- ===== src/OpenApi/Filters.antt =====
-- Classes/Service/OpenApiBuilder.php, the parameters of filters and the paths, and what the classes of
-- Classes/Filter document of themselves.
use t3api.Base.{String, Option, none, some, List, [], ◌∷◌, ◌++◌, ◌==◌, map, if◌then◌else◌}
use t3api.Base.Text.{concat}
use t3api.Result.{Result, ok, thrown, ◌>>=◌}
use t3api.Domain.Filter.{
  ApiFilter, CustomClasses, FilterClass, boolean_filter, numeric_filter, uid_filter, order_filter,
  range_filter, search_filter, contain_filter, distance_filter, custom_filter, get_parameter_name,
}
use t3api.Domain.Operation.{Operation, item, collection, is_method}
use t3api.OpenApi.{
  Parameter, Schema, boolean, integer, number, text, query_parameter,
  get_path_parameters_for_operation, get_pagination_parameters_for_operation,
}

-- `$parameter . '[' . $key . ']'`
abbrev indexed : String → String → String
indexed name key = concat (name ∷ "[" ∷ key ∷ "]" ∷ [])

abbrev single : Schema → String → List Parameter
single schema name = query_parameter name schema ∷ []

abbrev entries : String → List (String × Schema) → List Parameter
entries name keys = map (λ k. query_parameter (indexed name k.0) k.1) keys

-- `$parameters[$name] = $parameter`
unfoldable pub set_parameter : Parameter → List Parameter → List Parameter
set_parameter p [] = p ∷ []
set_parameter p (q ∷ qs) =
    let others = set_parameter p qs in if q.name == p.name then p ∷ qs else q ∷ others

abbrev set_parameters : List Parameter → List Parameter → List Parameter
set_parameters [] all = all
set_parameters (p ∷ ps) all = set_parameters ps (set_parameter p all)

-- What PHP knows of the classes of another extension, and what they document, if they do; and the order
-- that `sort` gives objects, which compares their properties.
module _ (classes : CustomClasses)
    (custom_parameters : String → ApiFilter → Option (Result (List Parameter)))
    (sort : List Parameter → List Parameter) where
  abbrev named : (String → List Parameter) → ApiFilter → Option (Result (List Parameter))
  named make f = some (get_parameter_name classes f >>= λ name. ok (make name))

  -- `getOpenApiParameters` of the class of the filter, if it has that method
  unfoldable pub get_open_api_parameters :
      FilterClass → ApiFilter → Option (Result (List Parameter))
  unfolding get_parameter_name
  get_open_api_parameters boolean_filter f = named (single boolean) f
  get_open_api_parameters numeric_filter f = named (single (integer none none)) f
  get_open_api_parameters uid_filter f = named (single (integer none none)) f
  get_open_api_parameters search_filter f = named (single (text [])) f
  get_open_api_parameters contain_filter f = named (single (text [])) f
  get_open_api_parameters order_filter f =
      named (λ name. entries name ((f.property, text ("asc" ∷ "desc" ∷ [])) ∷ [])) f
  get_open_api_parameters distance_filter f =
      named (λ name. entries name (("lat", number) ∷ ("lng", number) ∷ ("radius", number) ∷ [])) f
  get_open_api_parameters range_filter f =
      named
        (λ name. entries name (
          ("between", text [])
          ∷ ("gt", number)
          ∷ ("gte", number)
          ∷ ("lt", number)
          ∷ ("lte", number)
          ∷ []))
        f
  get_open_api_parameters (custom_filter class) f = custom_parameters class f

  abbrev add_documented :
      Option (Result (List Parameter)) → List Parameter → Result (List Parameter)
  add_documented none all = ok all
  add_documented (some (thrown e)) all = thrown e
  add_documented (some (ok ps)) all = ok (set_parameters ps all)

  -- the loop over the filters
  abbrev gather : List ApiFilter → List Parameter → Result (List Parameter)
  gather [] all = ok all
  gather (f ∷ fs) all =
      add_documented (get_open_api_parameters f.filter_class f) all >>= λ more. gather fs more

  abbrev sorted : Result (List Parameter) → Result (List Parameter)
  sorted (ok ps) = ok (sort ps)
  sorted (thrown e) = thrown e

  -- `getFilterParametersForOperation`
  unfoldable pub get_filter_parameters_for_operation : Operation → Result (List Parameter)
  unfolding get_open_api_parameters set_parameter
  get_filter_parameters_for_operation o = elim o.kind [
    | item ↦ ok []
    | collection p fs ↦ if is_method "GET" o then sorted (gather fs []) else ok []
  ]

  -- `getOperationParameters`
  unfoldable pub get_operation_parameters : Operation → Result (List Parameter)
  unfolding get_filter_parameters_for_operation get_path_parameters_for_operation
      get_pagination_parameters_for_operation
  get_operation_parameters o = get_filter_parameters_for_operation o >>= λ filters.
      ok (
        get_path_parameters_for_operation o ++ filters ++ get_pagination_parameters_for_operation o)

-- `$paths[$path]['operations'][] = $operation`
abbrev add_to_path : Operation → List (String × List Operation) → List (String × List Operation)
add_to_path o [] = (o.path, o ∷ []) ∷ []
add_to_path o ((path, os) ∷ rest) =
    let others = add_to_path o rest in
    if path == o.path then (path, os ++ (o ∷ [])) ∷ rest else (path, os) ∷ others

abbrev group : List Operation → List (String × List Operation) → List (String × List Operation)
group [] paths = paths
group (o ∷ os) paths = group os (add_to_path o paths)

-- `getPaths`: the operations of each path
unfoldable pub get_paths : List Operation → List (String × List Operation)
get_paths os = group os []

-- `$summary` of `getOperation`
unfoldable pub summary : Operation → Option String
summary o = elim o.kind [
  | item ↦
      if is_method "GET" o
      then some "Retrieves the resource."
      else if is_method "PUT" o
      then some "Replaces the resource"
      else if is_method "PATCH" o
      then some "Updates the resource"
      else if is_method "DELETE" o
      then some "Removes the resource"
      else none
  | collection p fs ↦
      if is_method "GET" o
      then some "Retrieves the collection of resources."
      else if is_method "POST" o
      then some "Creates the resource."
      else none
]
