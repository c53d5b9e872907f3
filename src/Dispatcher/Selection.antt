-- ===== src/Dispatcher/Selection.antt =====
-- Which handler takes a request, and the order in which handlers and processors are asked.
use t3api.Base.{
  ◌∙◌, ◌≡◌, refl, Bool, true, false, ◌&&◌, Option, none, some, List, [], ◌∷◌, ◌==◌, map,
  if◌then◌else◌, arith, keep, first, All,
}
use t3api.Base.Int.{ℤ, eqb_ℤ}
use t3api.Base.Sort.{sort, IsSorted, sort-perm, sort-IsSorted, keep-sort}
use mathlib.Core.List.{Perm}
use t3api.Result.{Result, ok, thrown}
use t3api.Http.{Request}
use t3api.Domain.Operation.{Operation, is_method}
use t3api.Handler.Support.{
  Handler, options, file_upload, collection_get, collection_post, collection_method_not_allowed,
  item_get, item_put, item_patch, item_delete, item_method_not_allowed, Settings, supports,
  is_collection, is_collection,
}
use t3api.Dispatcher.{
  keep_supporting, Priority, rank, precedes, get_class_names_sorted_by_priority,
  registered_handlers, Surroundings, get_handlers_supporting_operation,
}

-- The handler of an operation, by its kind and method. An item operation of another method has that
-- for methods which collections do not allow.
abbrev for_item : Operation → Handler
for_item o =
    if is_method "GET" o
    then item_get
    else if is_method "PUT" o
    then item_put
    else if is_method "PATCH" o
    then item_patch
    else if is_method "DELETE" o
    then item_delete
    else collection_method_not_allowed

abbrev for_collection : Settings → Operation → Option Handler
for_collection c o =
    if is_method "POST" o && c.is_file o.entity
    then some file_upload
    else if is_method "GET" o
    then some collection_get
    else if is_method "POST" o
    then some collection_post
    else none

abbrev pub expected : Settings → Operation → Request → Option Handler
expected c o request =
    if request.method == "OPTIONS"
    then some options
    else if is_collection o
    then for_collection c o
    else some (for_item o)

abbrev pub chosen : Result (List Handler) → Option Handler
chosen (ok hs) = first hs
chosen (thrown e) = none

-- the first element that passes a test
abbrev find {ℓ} : {A : Type ℓ} → (A → Bool) → List A → Option A
find p [] = none
find p (x ∷ xs) = if p x then some x else find p xs

-- the classes of the registration, in the order in which they are asked
abbrev asked : List Handler
asked =
    options ∷ file_upload ∷ collection_get ∷ collection_post ∷ item_get ∷ item_put ∷ item_patch
    ∷ item_delete ∷ collection_method_not_allowed ∷ item_method_not_allowed ∷ []

sorted : get_class_names_sorted_by_priority registered_handlers ≡ map some asked
unfolding get_class_names_sorted_by_priority sort
sorted = refl

module _ (c : Settings) (o : Operation) (request : Request) where
  keep_supporting-map :
      (hs : List Handler)
      → keep_supporting c o request (map some hs) ≡ ok (keep (λ h. supports c h o request) hs)
  keep_supporting-map [] = refl
  keep_supporting-map (h ∷ hs) = rw (keep_supporting-map hs) (ground arith)

first-keep : (p : Handler → Bool) (hs : List Handler) → first (keep p hs) ≡ find p hs
first-keep p [] = refl
first-keep p (h ∷ hs) = ground (arith, first-keep p hs)

find-asked :
    (c : Settings) (o : Operation) (request : Request)
    → find (λ h. supports c h o request) asked ≡ expected c o request
unfolding supports
find-asked c o request = ground arith

-- With the registered handlers the list of those that support an operation is made without failure.
pub get_handlers-registered :
    (c : Settings) (w : Surroundings) (o : Operation) (request : Request)
    → w.handlers ≡ registered_handlers
    → (hs : List Handler) × (get_handlers_supporting_operation c w o request ≡ ok hs)
      × (first hs ≡ expected c o request)
unfolding get_handlers_supporting_operation
get_handlers-registered c w o request default =
    rw (default, sorted)
      (
        keep (λ h. supports c h o request) asked,
        keep_supporting-map c o request asked,
        first-keep (λ h. supports c h o request) asked ∙ find-asked c o request,
      )

-- With the handlers that are registered, the first one that supports an operation is the handler of OPTIONS
-- requests for such a request, whatever the operation. For other requests it is the one for the kind and method of
-- the operation: a collection operation that is neither GET nor POST has none then, and an item
-- operation of another method than the four has the handler named after collections.
pub chosen-get_handlers :
    (c : Settings) (w : Surroundings) (o : Operation) (request : Request)
    → w.handlers ≡ registered_handlers
    → chosen (get_handlers_supporting_operation c w o request) ≡ expected c o request
chosen-get_handlers c w o request default =
    let (hs, e, f) = get_handlers-registered c w o request default in rw e f

module _ {ℓ} {A : Type ℓ} where
  follows :
      (x y z : A × Priority)
      → Unit {0}
      → Unit {0}
      → Unit {0}
      → precedes y x ≡ false
      → precedes z y ≡ false
      → precedes z x ≡ false
  follows (a, p) (b, q) (c, r) u v w h k = ground arith

  asym : (x y : A × Priority) → precedes y x ≡ true → precedes x y ≡ false
  asym (a, p) (b, q) h = ground arith

  level :
      (n : ℤ) (x y : A × Priority)
      → eqb_ℤ (rank x.1) n ≡ true
      → eqb_ℤ (rank y.1) n ≡ true
      → precedes y x ≡ false
  level n (a, p) (b, q) h k = ground arith

  All-trivial : (xs : List (A × Priority)) → All (λ x. Unit {0}) xs
  All-trivial [] = tt
  All-trivial (x ∷ xs) = (tt, All-trivial xs)

-- The classes come in an order in which no class precedes another of higher priority, all of them, as
-- often as they are registered; and those of any one priority come in the order of their registration.
get_class_names_order {ℓ} :
    {A : Type ℓ} (items : List (A × Priority)) (n : ℤ)
    → (sorted : List (A × Priority)) × (get_class_names_sorted_by_priority items
        ≡ map (λ i. i.0) sorted)
      × IsSorted precedes sorted
      × Perm sorted items
      × (keep (λ i. eqb_ℤ (rank i.1) n) sorted ≡ keep (λ i. eqb_ℤ (rank i.1) n) items)
unfolding get_class_names_sorted_by_priority
get_class_names_order items n = (
  sort precedes items,
  refl,
  sort-IsSorted precedes (λ x. Unit {0}) follows asym items (All-trivial items),
  sort-perm precedes items,
  keep-sort precedes (λ i. eqb_ℤ (rank i.1) n) (λ x y p q. level n x y p q) items,
)
