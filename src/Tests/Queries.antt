-- ===== src/Tests/Queries.antt =====
-- Tests of the repository, the settings and the violations.
use t3api.Base.{
  ℕ, String, ◌≡◌, ◌≢◌, refl, ◌≤◌, ◌<◌, ◌↔◌, ◌⊎◌, inl, inr, Bool, true, false, ◌&&◌, ◌||◌, none,
  some, List, [], ◌∷◌, arith, ◌==◌, all, any, ◌*◌,
}
use t3api.Base.Int.{ℤ, pos, ◌≤ℤ◌, int_max}
use mathlib.Core.List.{Perm}
use t3api.Exception.{runtime, type_error}
use t3api.Exception.Violations.{
  result, sub, none_left, get_violations, violations_at, get_violations-eq,
}
use t3api.Result.{ok, thrown}
use t3api.Php.{Value, bool, int, str, arr, entry, end, Fields}
use t3api.Domain.Filter.{ApiFilter, boolean_filter}
use t3api.Domain.Operation.{item}
use t3api.Domain.Pagination.{
  Pagination, get_number_of_items_per_page, requested_items, get_offset, get_page,
}
use t3api.Domain.Pagination.Bounds.{get_number_of_items_per_page_bounds, get_offset_of_page}
use t3api.Query.{Constraint, value, equals}
use t3api.Runtime.{Platform}
use t3api.Repository.{
  Named, Groups, filter_and_sort, keep_requested, matching, apply_filters,
  get_instance_for_operation, add,
}
use t3api.Repository.Order.{AllInOrder, filter_and_sort_order}
use t3api.Repository.Groups.{selects, meets}
use t3api.Repository.Meaning.{collect, apply_filters_meaning}
use t3api.Repository.Storage.{add_outside}
use t3api.Tests.Samples.{platform, classes, database, operation, fresh, pagination, query}

get_violations-eq_example :
    get_violations
      (result (("bad", 1) ∷ []) (sub "name" (result (("empty", 2) ∷ []) none_left) none_left))
    ≡ violations_at []
        (result (("bad", 1) ∷ []) (sub "name" (result (("empty", 2) ∷ []) none_left) none_left))
get_violations-eq_example =
    get_violations-eq
      (result (("bad", 1) ∷ []) (sub "name" (result (("empty", 2) ∷ []) none_left) none_left))

sized : get_number_of_items_per_page pagination ≡ ok (pos 2)
unfolding get_number_of_items_per_page requested_items
sized = refl

get_number_of_items_per_page_bounds_example :
    (pos 2 ≢ pos 0)
    × ((pagination.maximum_items_per_page ≡ pos 0) ⊎ (pos 2 ≤ℤ pagination.maximum_items_per_page))
    × ((requested_items pagination ≡ none)
        ⊎ ((m : ℤ) × (requested_items pagination ≡ some m) × ((m ≡ pos 0) ⊎ (pos 2 ≤ℤ m))))
get_number_of_items_per_page_bounds_example =
    get_number_of_items_per_page_bounds pagination (pos 2) sized

abbrev third_page : Pagination
third_page = record pagination { parameters = ("page", int (pos 3)) ∷ [] }

third : get_page third_page ≡ pos 3
unfolding get_page t3api.Php.get t3api.Php.to_int
third = refl

third-sized : get_number_of_items_per_page third_page ≡ ok (pos 2)
unfolding get_number_of_items_per_page requested_items
third-sized = refl

get_offset_of_page_example :
    ((2 * 2 ≤ int_max) × (get_offset third_page ≡ ok (pos (2 * 2))))
    ⊎ ((int_max < 2 * 2) × (get_offset third_page ≡ thrown type_error))
get_offset_of_page_example = get_offset_of_page third_page 2 2 third (omega arith) third-sized

abbrev sold : ApiFilter
sold = record {
  filter_class = boolean_filter;
  strategy = record { name = ""; condition = none };
  property = "sold";
  arguments = [];
}

abbrev new : ApiFilter
new = record sold { property = "new" }

abbrev parameters : Fields
parameters = ("new", arr (entry "0" (str "1") end)) ∷ ("sold", arr (entry "0" (str "0") end)) ∷ []

abbrev named_new : Named
named_new = record { name = "new"; named_filter = new }

abbrev named_sold : Named
named_sold = record { name = "sold"; named_filter = sold }

in_order : filter_and_sort classes parameters (sold ∷ new ∷ []) ≡ ok (named_new ∷ named_sold ∷ [])
unfolding filter_and_sort t3api.Domain.Filter.get_parameter_name t3api.Php.get t3api.Base.Sort.sort
in_order = refl

filter_and_sort_order_example :
    (named : List Named) × (keep_requested classes parameters (sold ∷ new ∷ []) ≡ ok named)
    × Perm (named_new ∷ named_sold ∷ []) named
    × AllInOrder parameters (named_new ∷ named_sold ∷ [])
filter_and_sort_order_example =
    filter_and_sort_order classes parameters (sold ∷ new ∷ []) (named_new ∷ named_sold ∷ [])
      in_order

abbrev is_new : Constraint
is_new = equals "new" (value (bool true))

abbrev is_unsold : Constraint
is_unsold = equals "sold" (value (bool false))

abbrev always : Constraint → Bool
always c = true

collected :
    collect database parameters (named_new ∷ named_sold ∷ []) query
    ≡ ok (("new", is_new) ∷ ("sold", is_unsold) ∷ [], query)
unfolding collect t3api.Php.get t3api.Filter.filter_property t3api.Php.to_boolean
collected = refl

apply_filters_meaning_example :
    (groups : Groups) × (apply_filters database parameters (named_new ∷ named_sold ∷ []) [] query
      ≡ ok (groups, query))
    × (selects always (matching groups query)
        ≡ all
            (λ (a : String × Constraint).
              any
                (λ (b : String × Constraint). b.0 == a.0 && meets always b.1)
                (("new", is_new) ∷ ("sold", is_unsold) ∷ []))
            (("new", is_new) ∷ ("sold", is_unsold) ∷ []))
apply_filters_meaning_example =
    apply_filters_meaning database always parameters (named_new ∷ named_sold ∷ []) query query
      ("new", is_new) (("sold", is_unsold) ∷ []) collected

abbrev elsewhere : Platform
elsewhere = record platform { get_pid = λ h x. some (pos 9) }

add_outside_example :
    add elsewhere
      (get_instance_for_operation elsewhere.descendants (operation "POST" "" item))
      99
      fresh
    ≡ (thrown (runtime 1568467681848), fresh)
add_outside_example =
    add_outside elsewhere (operation "POST" "" item) 99 fresh (pos 5) (pos 9) [] refl refl refl refl
      refl
