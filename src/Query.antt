-- ===== src/Query.antt =====
-- The query of Extbase, as the calls of the code on it build it: its constraint, orderings, limit and
-- offset. What a database answers is a parameter of the modules that run a query.
use t3api.Base.{String, Option, List, [], ◌∷◌, ◌==◌, if◌then◌else◌}
use t3api.Base.Int.{ℤ}
use t3api.Php.{Value}

-- what a property is compared with
pub data Operand : Type 0 where
  value : Value → Operand
  date_time : String → Operand

mutual
  pub data Constraint : Type 0 where
    equals : String → Operand → Constraint
    is_in : String → List Operand → Constraint
    like : String → String → Constraint
    greater_than : String → Operand → Constraint
    greater_than_or_equal : String → Operand → Constraint
    less_than : String → Operand → Constraint
    less_than_or_equal : String → Operand → Constraint
    logical_and : Constraints → Constraint
    logical_or : Constraints → Constraint

  pub data Constraints : Type 0 where
    nil : Constraints
    cons : Constraint → Constraints → Constraints

-- the arguments `...$constraints`
abbrev pub spread : List Constraint → Constraints
spread [] = nil
spread (c ∷ cs) = cons c (spread cs)

pub record Query : Type 0 where
  pub object_type : String
  pub constraint : Option Constraint
  pub orderings : List (String × String)
  pub limit : Option ℤ
  pub offset : Option ℤ
  -- the query settings
  pub respect_storage_page : Option (List ℤ)
  pub respect_sys_language : Option String

-- `array_merge($orderings, [$property => $direction])`
unfoldable pub merge_ordering : List (String × String) → String → String → List (String × String)
merge_ordering [] property direction = (property, direction) ∷ []
merge_ordering ((p, d) ∷ rest) property direction =
    if p == property then (p, direction) ∷ rest else (p, d) ∷ merge_ordering rest property direction
