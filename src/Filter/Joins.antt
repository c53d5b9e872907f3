-- ===== src/Filter/Joins.antt =====
-- Classes/Filter/AbstractFilter.php: the joins for a property of a property. The statement is built by
-- the query builder of TYPO3, of which the joins are kept.
pub mod Aliases
pub mod Sound
use Prim.Native.String
use t3api.Base.{
  ℕ, suc, String, Bool, true, false, not, Option, none, some, List, [], ◌∷◌, ◌≡◌, ◌==◌,
  if◌then◌else◌, last, but_last,
}
use t3api.Base.Text.{concat, explode_dots}
use t3api.Exception.{invalid_argument, type_error}
use t3api.Result.{Result, ok, thrown}
use t3api.Action.{Action, pure, throw, lift, ◌>>=◌, ◌>>◌}

-- `ColumnMap\Relation`
pub data Relation : Type 0 where
  no_relation : Relation
  has_one : Relation
  has_many : Relation
  belongs_to_many : Relation
  has_and_belongs_to_many : Relation

-- `ColumnMap`
pub record ColumnMap : Type 0 where
  pub type_of_relation : Relation
  pub parent_key_field_name : Option String
  pub child_key_field_name : Option String
  pub column_name : String
  pub child_table_name : String
  pub relation_table_name : String

-- The side on the right is quoted as an identifier.
pub data Condition : Type 0 where
  eq : String → String → Condition
  in_set : String → String → Condition

-- `leftJoin($from, $table, $alias, $condition)`
pub record Join : Type 0 where
  pub from_alias : String
  pub table : String
  pub alias : String
  pub condition : Condition

-- How often `uniqid` was called, and the joins of the statement, the last one first.
pub record Joins : Type 0 where
  pub calls : ℕ
  pub joins : List Join

-- What is known of the model, and what the calls of `uniqid` give.
pub record Mapping : Type 0 where
  pub uniqid : ℕ → String
  -- `getColumnMap` of the data map of a class
  pub column_map : String → String → Option ColumnMap
  -- `DataMapper::getType`
  pub get_type : String → String → Result String

-- `isPropertyNested`: `str_contains($propertyName, '.')`
unfoldable pub is_property_nested : String → Bool
unfolding explode_dots
is_property_nested property = elim (but_last (explode_dots property)) [ [] ↦ false | _ ∷ _ ↦ true ]

abbrev or_empty : Option String → String
or_empty none = ""
or_empty (some s) = s

abbrev dotted : String → String → String
dotted alias column = concat (alias ∷ "." ∷ column ∷ [])

abbrev join : String → String → String → Condition → Action Joins (Unit {0})
join parent table alias condition s = (
  ok tt,
  record s {
    joins =
        record { from_alias = parent; table = table; alias = alias; condition = condition }
        ∷ s.joins;
  },
)

abbrev need_column_map : Option ColumnMap → Result ColumnMap
need_column_map none = thrown type_error
need_column_map (some m) = ok m

abbrev nested_or_throw : Option String → String → Result (String × String)
nested_or_throw none field = thrown (invalid_argument 0)
nested_or_throw (some alias) field = ok (alias, field)

module _ (mapping : Mapping) where
  open mapping use {uniqid, column_map, get_type}

  -- the alias that the `n`th call gives
  abbrev pub alias_of : ℕ → String → String
  alias_of n suffix = String.◌++◌ "alias_" (String.◌++◌ (uniqid n) suffix)

  abbrev pub get_unique_alias : String → Action Joins String
  get_unique_alias suffix s = (ok (alias_of s.calls suffix), record s { calls = suc s.calls })

  -- whether the key of the parent stands in the joined table
  abbrev has_parent_key : ColumnMap → Bool
  has_parent_key m = not (or_empty m.parent_key_field_name == "")

  -- the condition of a relation to one object, with how it compares where the parent has the key
  abbrev child_condition : (String → String → Condition) → String → String → ColumnMap → Condition
  child_condition compares parent alias m =
      if has_parent_key m
      then eq (dotted parent "uid") (dotted alias (or_empty m.parent_key_field_name))
      else compares (dotted parent m.column_name) (dotted alias "uid")

  -- the `switch`, which joins the table of the relation for one of many to many
  unfoldable pub join_condition : Relation → String → String → ColumnMap → Action Joins Condition
  join_condition has_one parent alias m = pure (child_condition eq parent alias m)
  join_condition has_many parent alias m = pure (child_condition in_set parent alias m)
  join_condition has_and_belongs_to_many parent alias m = do
    relational ← get_unique_alias "_mm"
    join parent m.relation_table_name relational
        (eq (dotted parent "uid") (dotted relational (or_empty m.parent_key_field_name)))
    pure (eq (dotted relational (or_empty m.child_key_field_name)) (dotted alias "uid"))
  join_condition belongs_to_many parent alias m = throw (invalid_argument 1562191351170)
  join_condition no_relation parent alias m = throw (invalid_argument 1562191351170)

  unfoldable pub add_join : String → ColumnMap → Action Joins String
  unfolding join_condition
  add_join parent m = do
    alias ← get_unique_alias ""
    condition ← join_condition m.type_of_relation parent alias m
    join parent m.child_table_name alias condition
    pure alias

  -- the loop over the associations; `at` is the alias of the last one
  unfoldable pub join_associations :
      List String → String → String → Option String → Action Joins (Option String)
  unfolding add_join
  join_associations [] class_name parent at = pure at
  join_associations (association ∷ rest) class_name parent at = do
    type ← lift (get_type class_name association)
    m ← lift (need_column_map (column_map class_name association))
    alias ← add_join parent m
    join_associations rest type alias (some alias)

  -- The alias and the field; the associations that the code returns with them are not read.
  unfoldable pub add_joins_for_nested_property :
      String → String → String → Action Joins (String × String)
  unfolding join_associations explode_dots
  add_joins_for_nested_property property root class_name = do
    let parts = explode_dots property
    at ← join_associations (but_last parts) class_name root none
    lift (nested_or_throw at (or_empty (last parts)))
