-- ===== src/Filter/Statements.antt =====
-- Classes/Filter/SearchFilter.php and ContainFilter.php: the statements that find rows, and
-- Classes/Filter/AbstractFilter.php, getTableName.
use Prim.Native.String
use t3api.Base.{String, Bool, false, none, some, List, [], ◌∷◌, map, if◌then◌else◌}
use t3api.Base.Int.{ℤ}
use t3api.Base.Text.{concat}
use t3api.Exception.{runtime}
use t3api.Result.{Result, ok, thrown, ◌>>=◌}
use t3api.Action.{Action, pure}
use t3api.Php.{Value, str, Fields, get, to_bool, to_int}
use t3api.Php.Number.{text_of_int}
use t3api.Domain.Filter.{ApiFilter, set_field}
use t3api.Query.{Query}
use t3api.Filter.{Database}
use t3api.Filter.Joins.{Mapping, Joins, Join, is_property_nested, add_joins_for_nested_property}

-- what the source of a query is
pub data Source : Type 0 where
  not_a_query : Source
  no_selector : Source
  selector : String → Source

-- The value of the first is a named parameter; the columns are quoted.
pub data Criterion : Type 0 where
  find_in_set : (given : Value) → (column : String) → Criterion
  match_in_natural_language :
      (column : String) → (key : String) → (query_expansion : Bool) → Criterion

-- `select('o.uid')`, with one of the criteria to be met
pub record Statement : Type 0 where
  pub table : String
  pub joins : List Join
  pub criteria : List Criterion
  pub binds : Fields

pub record Connection : Type 0 where
  pub mapping : Mapping
  pub source : Query → Source
  -- `convertPropertyNameToColumnName`, of a property and the class of the filter
  pub column_name : String → ApiFilter → String
  pub run : Statement → Result (List ℤ)

-- `getTableName`
unfoldable pub get_table_name : Source → Result String
get_table_name not_a_query = thrown (runtime 1575123607933)
get_table_name no_selector = thrown (runtime 1575123611889)
get_table_name (selector name) = ok name

-- `$key`, without the colon that only the statement has
abbrev key_of : String → String
key_of i = String.◌++◌ "text_ma_" (text_of_int (to_int (str i)))

abbrev key_binds : Fields → Fields → Fields
key_binds [] binds = binds
key_binds ((i, v) ∷ rest) binds = key_binds rest (set_field (key_of i) v binds)

-- `(bool)$apiFilter->getArgument('withQueryExpansion')`
abbrev with_query_expansion : ApiFilter → Bool
with_query_expansion f = elim (get "withQueryExpansion" f.arguments) [
  | none ↦ false
  | some v ↦ to_bool v
]

module _ (connection : Connection) where
  open connection use {mapping, source, column_name, run}

  -- the alias of the table with the property, and the property in it
  unfoldable pub locate : String → String → Action Joins (String × String)
  unfolding is_property_nested add_joins_for_nested_property
  locate property class_name =
      let nested = add_joins_for_nested_property mapping property "o" class_name in
      if is_property_nested property then nested else pure ("o", property)

  abbrev column : String × String → ApiFilter → String
  column (alias, field) f = concat (alias ∷ "." ∷ column_name field f ∷ [])

  -- a statement whose builder has just been made
  abbrev no_joins : Joins
  no_joins = record { calls = 0; joins = [] }

  unfoldable pub match_statement : Query → String → Fields → ApiFilter → Result Statement
  unfolding get_table_name locate text_of_int
  match_statement q property values f = do
    table ← get_table_name (source q)
    let located = locate property q.object_type no_joins
    at ← located.0
    ok (record {
      table = table;
      joins = located.1.joins;
      criteria =
          map (λ e. match_in_natural_language (column at f) (key_of e.0) (with_query_expansion f))
            values;
      binds = key_binds values [];
    })

  unfoldable pub contain_statement : Query → String → Fields → ApiFilter → Result Statement
  unfolding get_table_name locate
  contain_statement q property values f = do
    table ← get_table_name (source q)
    let located = locate property q.object_type no_joins
    at ← located.0
    ok (record {
      table = table;
      joins = located.1.joins;
      criteria = map (λ e. find_in_set e.1 (column at f)) values;
      binds = [];
    })

  unfoldable pub match_against_find_ids : Query → String → Fields → ApiFilter → Result (List ℤ)
  unfolding match_statement
  match_against_find_ids q property values f = do
    statement ← match_statement q property values f
    run statement

  unfoldable pub find_containing_ids : Query → String → Fields → ApiFilter → Result (List ℤ)
  unfolding contain_statement
  find_containing_ids q property values f = do
    statement ← contain_statement q property values f
    run statement

  -- The database of the filters, with the statements of this module.
  abbrev pub database_of : Database → Database
  unfolding match_against_find_ids find_containing_ids
  database_of db = record db {
    match_against = match_against_find_ids;
    containing = find_containing_ids;
  }
