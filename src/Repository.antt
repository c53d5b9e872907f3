-- ===== src/Repository.antt =====
-- Classes/Domain/Repository/CommonRepository.php and Classes/Service/StorageService.php
pub mod Order
pub mod Groups
pub mod Meaning
pub mod Storage
use t3api.Base.{
  ℕ, zero, suc, ltb, String, Bool, true, false, not, ◌&&◌, ◌||◌, Option, none, some, List, [], ◌∷◌,
  ◌++◌, ◌==◌, if◌then◌else◌,
}
use t3api.Base.Int.{ℤ, pos, leb_ℤ, ltb_ℤ, eqb_ℤ}
use t3api.Base.Sort.{sort}
use t3api.Exception.{runtime}
use t3api.Result.{Result, ok, thrown}
use t3api.Result
use t3api.Php.{Value, arr, Fields, fields, get}
use t3api.Http.{Request}
use t3api.Domain.Settings.{get_main_storage_pid}
use t3api.Domain.Filter.{ApiFilter, CustomClasses, get_parameter_name}
use t3api.Domain.Operation.{Operation}
use t3api.Query.{Query, Constraint, spread, logical_or, logical_and}
use t3api.Filter.{Database, filter_property}
use t3api.Runtime.{
  Ref, Platform, Exec, Call, looked_up, added, updated, removed, set_pid, pure, throw, lift, ask,
  ◌>>=◌, ◌>>◌,
}
use t3api.Access.{is_filter_granted}

-- `in_array($n, $list, true)` on numbers
abbrev pub contains : ℤ → List ℤ → Bool
contains n [] = false
contains n (m ∷ ms) = eqb_ℤ m n || contains n ms

-- `array_unique`: the first of equal elements stays
unfoldable pub unique_from : List ℤ → List ℤ → List ℤ
unique_from seen [] = []
unique_from seen (n ∷ ns) =
    let others = unique_from seen ns in
    let fresh = n ∷ unique_from (n ∷ seen) ns in if contains n seen then others else fresh

unfoldable pub array_unique : List ℤ → List ℤ
unfolding unique_from
array_unique = unique_from []

-- the loop over the start pages, and the `array_merge` of what it finds
abbrev pub all_descendants : (ℤ → List ℤ) → List ℤ → List ℤ
all_descendants below [] = []
all_descendants below (p ∷ ps) = below p ++ all_descendants below ps

unfoldable pub get_recursive_storage_pids : (ℤ → ℤ → List ℤ) → List ℤ → ℤ → List ℤ
unfolding array_unique
get_recursive_storage_pids descendants pids depth =
    if leb_ℤ depth (pos 0)
    then pids
    else array_unique (pids ++ all_descendants (λ p. descendants p depth) pids)

-- The repository, with its default query settings: the pages that it respects, if it does.
pub record Repository : Type 0 where
  pub for_operation : Operation
  pub storage_page_ids : Option (List ℤ)

-- `getInstanceForOperation`
unfoldable pub get_instance_for_operation : (ℤ → ℤ → List ℤ) → Operation → Repository
unfolding get_recursive_storage_pids
get_instance_for_operation descendants o = record {
  for_operation = o;
  storage_page_ids = elim o.persistence.storage_pids [
    | [] ↦ none
    | p ∷ ps ↦ some (get_recursive_storage_pids descendants (p ∷ ps) o.persistence.recursion_level)
  ];
}

-- `createQuery`
unfoldable pub create_query : Repository → Query
create_query r = record {
  object_type = r.for_operation.entity;
  constraint = none;
  orderings = [];
  limit = none;
  offset = none;
  respect_storage_page = r.storage_page_ids;
  respect_sys_language = none;
}

-- A filter with its parameter name, which does not change.
pub record Named : Type 0 where
  pub name : String
  pub named_filter : ApiFilter

-- `array_search($key, array_keys($fields), true)` as a number: `false` counts as 0. Keys that are
-- decimal numbers are left aside.
unfoldable pub position : String → Fields → ℕ
position key [] = 0
position key ((k, v) ∷ rest) = if k == key then 0 else suc (position key rest)

abbrev pub is_present : String → Fields → Bool
is_present key [] = false
is_present key ((k, v) ∷ rest) = k == key || is_present key rest

unfoldable pub search : String → Fields → ℕ
unfolding position
search key fs = if is_present key fs then position key fs else 0

-- `$queryParams[$name]`, if it is an array
abbrev array_at : String → Fields → Option Fields
array_at name params = elim (get name params) [ some (arr es) ↦ some (fields es) | _ ↦ none ]

-- Whether the comparison of `usort` puts `a` before `b`.
unfoldable pub comes_before : Fields → Named → Named → Bool
unfolding search
comes_before params a b =
    let by_name = ltb (search a.name params) (search b.name params) in
    if a.name == b.name && not (a.named_filter.property == b.named_filter.property)
    then elim (array_at a.name params) [
      | none ↦ by_name
      | some keys ↦ ltb (search a.named_filter.property keys) (search b.named_filter.property keys)
    ]
    else by_name

-- `$constraintGroups[$name] = array_merge($constraintGroups[$name] ?? [], [$constraint])`
abbrev pub Groups : Type 0
Groups = List (String × List Constraint)

unfoldable pub add_to_group : String → Constraint → Groups → Groups
add_to_group name c [] = (name, c ∷ []) ∷ []
add_to_group name c ((n, cs) ∷ rest) =
    if n == name then (n, cs ++ c ∷ []) ∷ rest else (n, cs) ∷ add_to_group name c rest

abbrev pub disjunctions : Groups → List Constraint
disjunctions [] = []
disjunctions ((n, cs) ∷ rest) = logical_or (spread cs) ∷ disjunctions rest

-- `$query->matching($query->logicalAnd(...$constraints))`, unless there are none
unfoldable pub matching : Groups → Query → Query
matching [] q = q
matching (g ∷ gs) q = record q { constraint = some (logical_and (spread (disjunctions (g ∷ gs)))) }

module _ (classes : CustomClasses) where
  -- The first half of `filterAndSortApiFiltersByQueryParams`: the filters whose parameter is set.
  unfoldable pub keep_requested : Fields → List ApiFilter → Result (List Named)
  keep_requested params [] = ok []
  keep_requested params (f ∷ fs) = Result.◌>>=◌ (get_parameter_name classes f) λ name.
      Result.◌>>=◌ (keep_requested params fs) λ rest. ok (elim (get name params) [
        | none ↦ rest
        | some _ ↦ record { name = name; named_filter = f } ∷ rest
      ])

  unfoldable pub filter_and_sort : Fields → List ApiFilter → Result (List Named)
  unfolding keep_requested comes_before
  filter_and_sort params fs =
      Result.◌>>=◌ (keep_requested params fs) λ named. ok (sort (comes_before params) named)

module _ (db : Database) where
  -- The loop of `findFiltered` over the filters; a parameter that is not set does not reach it.
  abbrev pub add_constraint : String → Option Constraint → Groups → Groups
  add_constraint name none groups = groups
  add_constraint name (some c) groups = add_to_group name c groups

  unfoldable pub apply_filters : Fields → List Named → Groups → Query → Result (Groups × Query)
  unfolding add_to_group
  apply_filters params [] groups q = ok (groups, q)
  apply_filters params (f ∷ fs) groups q = elim (get f.name params) [
    | none ↦ apply_filters params fs groups q
    | some v ↦
        Result.◌>>=◌ (filter_property db f.named_filter v q)
          λ r. apply_filters params fs (add_constraint f.name r.0 groups) r.1
  ]

-- `$object->getPid() > 0`; null is not
abbrev pub is_positive : Option ℤ → Bool
is_positive none = false
is_positive (some p) = ltb_ℤ (pos 0) p

-- `getRespectStoragePage() && !in_array($object->getPid(), getStoragePageIds(), true)`
abbrev pub is_outside : Option (List ℤ) → Option ℤ → Bool
is_outside (some pids) (some p) = not (contains p pids)
is_outside _ _ = false

module _ {R : Type 0} (platform : Platform) where
  -- `filterGrantedFilters`
  unfoldable pub filter_granted_filters : List ApiFilter → Exec R (List ApiFilter)
  filter_granted_filters [] = pure []
  filter_granted_filters (f ∷ fs) = do
    granted ← is_filter_granted platform f []
    rest ← filter_granted_filters fs
    pure (if granted then f ∷ rest else rest)

  unfoldable pub find_filtered :
      CustomClasses → Database → Repository → List ApiFilter → Request → Exec R Query
  unfolding filter_granted_filters filter_and_sort apply_filters matching create_query
  find_filtered classes db r fs request = do
    granted ← filter_granted_filters fs
    named ← lift (filter_and_sort classes request.query granted)
    found ← lift (apply_filters db request.query named [] (create_query r))
    pure (matching found.0 found.1)

  unfoldable pub find_by_uid : Repository → ℤ → Exec R (Option Ref)
  find_by_uid r uid =
      ask (looked_up uid r.for_operation.entity)
        (λ h. ok (platform.get_object h uid r.for_operation.entity))

  -- a call of the persistence manager
  abbrev pub call : Call → Exec R (Unit {0})
  call c = ask c (λ h. platform.perform h c)

  abbrev pub place : Repository → Ref → Option ℤ → Exec R (Unit {0})
  place r x none =
      let main = get_main_storage_pid r.for_operation.persistence in
      if ltb_ℤ (pos 0) main then call (set_pid x main) else pure tt
  place r x (some p) =
      if is_positive (some p) && is_outside r.storage_page_ids (some p)
      then throw (runtime 1568467681848)
      else pure tt

  unfoldable pub add : Repository → Ref → Exec R (Unit {0})
  add r x s = (do place r x (platform.get_pid s.history x); call (added x)) s

  unfoldable pub remove : Ref → Exec R (Unit {0})
  remove x = call (removed x)

  unfoldable pub update : Ref → Exec R (Unit {0})
  update x = call (updated x)
