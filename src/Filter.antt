-- ===== src/Filter.antt =====
-- Classes/Filter: what each filter adds to the query for the values of its parameter. What a filter
-- reads from the database, and the filters of other extensions, are a parameter.
pub mod Joins
pub mod Statements
use t3api.Base.{
  ◌++◌, String, Bool, ◌||◌, Option, none, some, List, [], ◌∷◌, map, ◌==◌, if◌then◌else◌,
}
use t3api.Base.Int.{ℤ, pos}
use t3api.Base.Text.{strtoupper, strtolower, concat, explode_range}
use t3api.Exception.{foreign, type_error, invalid_argument}
use t3api.Result.{Result, ok, thrown, ◌>>=◌}
use t3api.Php.{
  Value, null, bool, int, str, arr, Fields, fields, get, to_int, to_boolean, to_array, to_text,
  need_string,
}
use t3api.Php.Number.{is_int_key}
use t3api.Domain.Filter.{
  boolean_filter, numeric_filter, uid_filter, order_filter, range_filter, search_filter,
  contain_filter, distance_filter, custom_filter, ApiFilter,
}
use t3api.Query.{
  Operand, value, date_time, Constraint, equals, is_in, like, greater_than, greater_than_or_equal,
  less_than, less_than_or_equal, logical_and, logical_or, spread, Query, merge_ordering,
}

-- A call of `filterProperty`: it returns a constraint or null, and may change the query.
abbrev pub Filtered : Type 0
Filtered = Result (Option Constraint × Query)

pub record Database : Type 0 where
  -- the rows that `matchAgainstFindIds`, `findContainingIds` and the distance query find; Statements has
  -- the statements of the first two
  pub match_against : Query → String → Fields → ApiFilter → Result (List ℤ)
  pub containing : Query → String → Fields → ApiFilter → Result (List ℤ)
  pub within_radius : Query → Fields → ApiFilter → Result (List ℤ)
  -- what `new \DateTime` reads
  pub is_date : String → Bool
  pub custom : String → String → Value → Query → ApiFilter → Filtered

abbrev operands : Fields → List Operand
operands = map (λ entry. value entry.1)

-- `((array)$values)[0]`, null where the key is missing
abbrev first_value : Value → Value
first_value v = elim (get "0" (to_array v)) [ none ↦ null | some w ↦ w ]

unfoldable pub filter_boolean : String → Value → Query → Filtered
filter_boolean property values q =
    ok (some (equals property (value (bool (to_boolean (first_value values))))), q)

unfoldable pub filter_numeric : String → Value → Query → Filtered
filter_numeric property values q =
    ok (some (is_in property (map (λ e. value (int (to_int e.1))) (to_array values))), q)

-- The record is found whatever its language, with the overlay of the current one.
unfoldable pub filter_uid : String → Value → Query → Filtered
unfolding filter_numeric
filter_uid property values q =
    filter_numeric property values (record q { respect_sys_language = some "overlays on" })

-- the direction that the client gives, or that of the strategy
abbrev direction_of : String → ApiFilter → String
direction_of given f = strtoupper (if given == "" then f.strategy.name else given)

abbrev order_by : String → String → Query → Filtered
order_by property direction q =
    if direction == ""
    then ok (none, q)
    else if direction == "ASC" || direction == "DESC"
    then ok (none, record q { orderings = merge_ordering q.orderings property direction })
    else thrown (invalid_argument 1560890654236)

-- `isset($values[$property])` fails on a text, whose offsets are numbers.
abbrev entry_of : String → Value → Option Value
entry_of property (arr es) = get property (fields es)
entry_of property _ = none

unfoldable pub filter_order : String → Value → Query → ApiFilter → Filtered
filter_order property values q f = elim (entry_of property values) [
  | none ↦ ok (none, q)
  | some v ↦ (do given ← need_string v; order_by property (direction_of given f) q)
]

module _ (db : Database) where
  -- `getValue`
  unfoldable pub get_value : Value → ApiFilter → Result Operand
  get_value v f =
      if strtolower f.strategy.name == "datetime"
      then (do s ← need_string v; if db.is_date s then ok (date_time s) else thrown (foreign 0))
      else ok (value (int (to_int v)))

  -- `[$valueMin, $valueMax] = explode('..', $value)`: null for a part that is missing
  abbrev range_parts : List String → Value × Value
  range_parts (low ∷ high ∷ _) = (str low, str high)
  range_parts (low ∷ []) = (str low, null)
  range_parts [] = (null, null)

  unfoldable pub get_constraint_for_single_item :
      String → String → Value → ApiFilter → Result Constraint
  unfolding get_value
  get_constraint_for_single_item property operator v f =
      if operator == "between"
      then (do
        s ← need_string v
        let parts = range_parts (explode_range s)
        low ← get_value parts.0 f
        high ← get_value parts.1 f
        ok (
            logical_and (
              spread (greater_than_or_equal property low ∷ less_than_or_equal property high ∷ []))))
      else if operator == "gt"
      then (do o ← get_value v f; ok (greater_than property o))
      else if operator == "gte"
      then (do o ← get_value v f; ok (greater_than_or_equal property o))
      else if operator == "lt"
      then (do o ← get_value v f; ok (less_than property o))
      else if operator == "lte"
      then (do o ← get_value v f; ok (less_than_or_equal property o))
      else thrown (invalid_argument 1560929019063)

  -- the loop of the range filter; a key that is an `int` is no `string $operator`
  unfoldable pub range_constraints : String → Fields → ApiFilter → Result (List Constraint)
  unfolding get_constraint_for_single_item
  range_constraints property [] f = ok []
  range_constraints property ((operator, v) ∷ rest) f = do
    c ←
        if is_int_key operator
        then thrown type_error
        else get_constraint_for_single_item property operator v f
    cs ← range_constraints property rest f
    ok (c ∷ cs)

  abbrev or_none : List Constraint → Option Constraint
  or_none [] = none
  or_none (c ∷ cs) = some (logical_or (spread (c ∷ cs)))

  unfoldable pub filter_range : String → Value → Query → ApiFilter → Filtered
  unfolding range_constraints
  filter_range property values q f = do
    cs ← range_constraints property (to_array values) f
    ok (or_none cs, q)

  -- `$ids + [0]`: the union of arrays adds a 0 only where there is no first row
  abbrev ids_or_zero : List ℤ → List Operand
  ids_or_zero [] = value (int (pos 0)) ∷ []
  ids_or_zero (i ∷ is) = map (λ n. value (int n)) (i ∷ is)

  abbrev partial_matches : String → Fields → List Constraint
  partial_matches property = map (λ e. like property (concat ("%" ∷ to_text e.1 ∷ "%" ∷ [])))

  unfoldable pub filter_search : String → Value → Query → ApiFilter → Filtered
  filter_search property values q f =
      if f.strategy.name == "partial"
      then ok (some (logical_or (spread (partial_matches property (to_array values)))), q)
      else if f.strategy.name == "matchAgainst"
      then (do
        ids ← db.match_against q property (to_array values) f
        ok (some (is_in "uid" (ids_or_zero ids)), q))
      else ok (some (is_in property (operands (to_array values))), q)

  -- `findContainingIds` and the methods of the distance filter take an array.
  abbrev need_array : Value → Result Fields
  need_array (arr es) = ok (fields es)
  need_array _ = thrown type_error

  unfoldable pub filter_contain : String → Value → Query → ApiFilter → Filtered
  filter_contain property values q f = do
    given ← need_array values
    ids ← db.containing q property given f
    ok (some (is_in "uid" (ids_or_zero ids)), q)

  -- `makeInstance($apiFilter->getFilterClass())->filterProperty(…)`
  unfoldable pub filter_property : ApiFilter → Value → Query → Filtered
  unfolding filter_boolean filter_numeric filter_uid filter_order filter_range filter_search
      filter_contain
  filter_property f values q = elim f.filter_class [
    | boolean_filter ↦ filter_boolean f.property values q
    | numeric_filter ↦ filter_numeric f.property values q
    | uid_filter ↦ filter_uid f.property values q
    | order_filter ↦ filter_order f.property values q f
    | range_filter ↦ filter_range f.property values q f
    | search_filter ↦ filter_search f.property values q f
    | contain_filter ↦ filter_contain f.property values q f
    | distance_filter ↦ (do
      given ← need_array values
      ids ← db.within_radius q given f
      ok (some (is_in "uid" (map (λ n. value (int n)) (ids ++ pos 0 ∷ []))), q))
    | custom_filter name ↦ db.custom name f.property values q f
  ]
