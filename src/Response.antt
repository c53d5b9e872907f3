-- ===== src/Response.antt =====
-- Classes/Response/AbstractCollectionResponse.php and HydraCollectionResponse.php. The serializer
-- reads the members first, so that the pagination has the parameters of the request by then. The
-- quotient of two numbers below 2 ^ 53 is rounded up exactly, and the name of a parameter has no `%`.
pub mod Pages
pub mod Links
use t3api.Base.{
  ℕ, zero, suc, ◌+◌, ◌-◌, ◌/◌, String, Bool, true, false, Option, none, some, List, [], ◌∷◌, ◌++◌,
  map, if◌then◌else◌,
}
use t3api.Base.Int.{ℤ, pos, negsuc, ◌+ℤ◌, ◌-ℤ◌, ltb_ℤ}
use t3api.Base.Text.{concat, implode, in_array}
use t3api.Exception.{division_by_zero}
use t3api.Result.{Result, ok, thrown, ◌>>=◌}
use t3api.Php.{Value, int, Fields}
use t3api.Domain.Pagination.{
  Pagination, set_parameters_from_request, is_enabled, get_number_of_items_per_page, get_page,
  get_offset,
}
use t3api.Domain.Filter.{ApiFilter, CustomClasses, array_merge, is_order_filter, get_parameter_name}
use t3api.Query.{Query}

-- `applyPagination`: the query to run, and the pagination of the operation, which keeps the parameters
unfoldable pub apply_pagination : Fields → Pagination → Query → Result (Query × Pagination)
unfolding set_parameters_from_request
apply_pagination parameters p q =
    let here = set_parameters_from_request parameters p in
    if is_enabled here
    then (do
      items ← get_number_of_items_per_page here
      offset ← get_offset here
      ok (record q { limit = some items; offset = some offset }, here))
    else ok (q, here)

-- `(int)ceil($total / $items)`
unfoldable pub last_page : ℕ → ℤ → Result ℤ
last_page total (pos zero) = thrown division_by_zero
last_page total (pos (suc n)) = ok (pos ((total + n) / suc n))
last_page total (negsuc n) = ok (pos 0 -ℤ pos (total / suc n))

-- `range(1, $last)`, which counts down where the second number is below 1
abbrev pub count_up : ℕ → ℕ → List ℤ
count_up from zero = []
count_up from (suc n) = pos from ∷ count_up (suc from) n

abbrev count_down : ℕ → List ℤ
count_down zero = []
count_down (suc n) = count_down n ++ negsuc n ∷ []

unfoldable pub range_1 : ℤ → List ℤ
range_1 (pos zero) = pos 1 ∷ pos 0 ∷ []
range_1 (pos (suc n)) = count_up 1 (suc n)
range_1 (negsuc n) = pos 1 ∷ pos 0 ∷ count_down (suc n)

pub record View : Type 0 where
  pub first_uri : String
  pub last_uri : String
  pub prev_uri : Option String
  pub next_uri : Option String
  pub pages : List String
  pub page : ℤ

-- `http_build_query`
module _ (build : Fields → String) where
  -- the path of the operation's route, `?`, and `getCurrentQueryStringWithOverrideParams`
  unfoldable pub page_uri : String → Fields → String → ℤ → String
  page_uri path query name n =
      concat (path ∷ "?" ∷ build (array_merge query ((name, int n) ∷ [])) ∷ [])

  -- `getView`, the query of the request being `query`
  unfoldable pub get_view : String → Fields → Pagination → ℕ → Result (Option View)
  unfolding last_page range_1 page_uri
  get_view path query p total =
      if is_enabled p
      then (do
        items ← get_number_of_items_per_page p
        last ← last_page total items
        let uri = page_uri path query p.page_parameter_name
        ok (
            some (record {
              first_uri = uri (pos 1);
              last_uri = uri last;
              prev_uri =
                  if ltb_ℤ (pos 1) (get_page p) then some (uri (get_page p -ℤ pos 1)) else none;
              next_uri = if ltb_ℤ (get_page p) last then some (uri (get_page p +ℤ pos 1)) else none;
              pages = map uri (range_1 last);
              page = get_page p;
            })))
      else ok none

pub record Mapping : Type 0 where
  pub variable : String
  pub property : String

module _ (classes : CustomClasses) where
  -- the variable that `getSearch` names for a filter
  unfoldable pub search_variable : ApiFilter → Result String
  unfolding is_order_filter
  search_variable f = do
    name ← get_parameter_name classes f
    ok (if is_order_filter classes f then concat (name ∷ "[" ∷ f.property ∷ "]" ∷ []) else name)

  -- the loop of `getSearch`, given the variables so far
  unfoldable pub get_mapping : List ApiFilter → List String → Result (List Mapping)
  unfolding search_variable
  get_mapping [] seen = ok []
  get_mapping (f ∷ fs) seen = do
    variable ← search_variable f
    if in_array variable seen then get_mapping fs seen else (do
      rest ← get_mapping fs (seen ++ variable ∷ [])
      ok (record { variable = variable; property = f.property } ∷ rest))

  -- `getSearch`: the template and the mapping
  unfoldable pub get_search : String → List ApiFilter → Result (String × List Mapping)
  unfolding get_mapping
  get_search path fs = do
    mapping ← get_mapping fs []
    ok (concat (path ∷ "{?" ∷ implode "," (map (λ m. m.variable) mapping) ∷ "}" ∷ []), mapping)
