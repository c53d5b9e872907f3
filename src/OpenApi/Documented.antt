-- ===== src/OpenApi/Documented.antt =====
-- The documented parameters of the pagination, beside what the pagination reads of a request.
use mathlib.Core.Path.{subst}
use t3api.Base.{
  ◌⊎◌, inl, inr, ◌||◌, ◌++◌, if◌then◌else◌, none, some, Bool, true, false, All, List, [], ◌∷◌, ◌≡◌,
  refl, sym, ap, ◌∙◌,
}
use t3api.Base.Int.{ℤ, pos, ◌-ℤ◌, ◌*ℤ◌, checked}
use t3api.Result.{Result, ok, thrown, ◌>>=◌}
use t3api.Php.{Fields, get, to_bool, to_int}
use t3api.Domain.Pagination.{
  get_client_number_of_items_per_page, Pagination, get_number_of_items_per_page, get_offset,
  is_enabled, get_page, int_result, requested_items,
}
use t3api.Domain.Filter.{ApiFilter}
use t3api.Domain.Operation.{Operation, collection, is_method}
use t3api.Query.{Query}
use t3api.Response.{apply_pagination}
use t3api.OpenApi.{Parameter, pagination_parameters, get_pagination_parameters_for_operation}

-- the query that is run for the parameters of a request
abbrev pub paged : Fields → Pagination → Query → Result Query
paged parameters p q = do r ← apply_pagination parameters p q; ok r.0

-- the query of a page, if the pagination is enabled
abbrev run : Query → Bool → Result ℤ → Result ℤ → Result Query
run q enabled items offset =
    if enabled
    then (do i ← items; o ← offset; ok (record q { limit = some i; offset = some o }))
    else ok q

-- the same, with the pagination beside it
abbrev run_with : Query → Bool → Result ℤ → Result ℤ → Pagination → Result (Query × Pagination)
run_with q enabled items offset p =
    if enabled
    then (do i ← items; o ← offset; ok (record q { limit = some i; offset = some o }, p))
    else ok (q, p)

run-eq :
    (q : Query) (enabled : Bool) (items offset : Result ℤ) (p : Pagination)
    → (run_with q enabled items offset p >>= λ r. ok r.0) ≡ run q enabled items offset
run-eq q false items offset p = refl
run-eq q true (thrown e) offset p = refl
run-eq q true (ok i) (thrown e) p = refl
run-eq q true (ok i) (ok o) p = refl

-- `getOffset`, of the number of items and the page
abbrev offset_from : Result ℤ → ℤ → Result ℤ
unfolding ◌-ℤ◌ ◌*ℤ◌
offset_from items page = do
  n ← items
  before ← int_result (checked (page -ℤ pos 1))
  int_result (checked (before *ℤ n))

-- the pagination with the parameters of a request
abbrev with : Fields → Pagination → Pagination
with parameters p = record p { parameters = parameters }

paged-run :
    (parameters : Fields) (p : Pagination) (q : Query)
    → paged parameters p q
      ≡ run q
          (is_enabled (with parameters p))
          (get_number_of_items_per_page (with parameters p))
          (get_offset (with parameters p))
unfolding apply_pagination
paged-run parameters p q =
    run-eq q (is_enabled (with parameters p)) (get_number_of_items_per_page (with parameters p))
      (get_offset (with parameters p)) (with parameters p)

is_enabled-off :
    (parameters : Fields) (p : Pagination)
    → p.client_enabled ≡ false
    → p.server_enabled ≡ false
    → is_enabled (with parameters p) ≡ false
unfolding is_enabled
is_enabled-off parameters p c s = rw (c, s) refl

documented :
    (o : Operation) (p : Pagination) (fs : List ApiFilter)
    → o.kind ≡ collection p fs
    → is_method "GET" o ≡ true
    → get_pagination_parameters_for_operation o ≡ pagination_parameters p
unfolding get_pagination_parameters_for_operation
documented o p fs e g = rw (e, g) refl

module _ (a b : Fields) where
  -- Two requests give a parameter the same value.
  abbrev pub IsSame : Parameter → Type 0
  IsSame parameter = get parameter.name a ≡ get parameter.name b

  is_enabled-same :
      (p : Pagination)
      → get p.enabled_parameter_name a ≡ get p.enabled_parameter_name b
      → is_enabled (with a p) ≡ is_enabled (with b p)
  unfolding is_enabled
  is_enabled-same p e =
      ap
        (λ v.
          if p.client_enabled
          then elim v [ none ↦ p.server_enabled | some w ↦ to_bool w ]
          else p.server_enabled)
        e

  get_page-same :
      (p : Pagination)
      → get p.page_parameter_name a ≡ get p.page_parameter_name b
      → get_page (with a p) ≡ get_page (with b p)
  unfolding get_page
  get_page-same p e = ap (λ v. elim v as (λ _. ℤ) [ none ↦ pos 1 | some w ↦ to_int w ]) e

  client_items-same :
      (p : Pagination)
      → get p.items_per_page_parameter_name a ≡ get p.items_per_page_parameter_name b
      → get_client_number_of_items_per_page (with a p)
        ≡ get_client_number_of_items_per_page (with b p)
  unfolding get_client_number_of_items_per_page
  client_items-same p e =
      ap
        (λ v.
          if p.client_items_per_page
          then elim v [ none ↦ none | some w ↦ some (to_int w) ]
          else none)
        e

  number-same :
      (p : Pagination)
      → get_client_number_of_items_per_page (with a p)
        ≡ get_client_number_of_items_per_page (with b p)
      → get_number_of_items_per_page (with a p) ≡ get_number_of_items_per_page (with b p)
  unfolding get_number_of_items_per_page requested_items
  number-same p e = rw e refl

  offset-same :
      (p : Pagination)
      → get_number_of_items_per_page (with a p) ≡ get_number_of_items_per_page (with b p)
      → get_page (with a p) ≡ get_page (with b p)
      → get_offset (with a p) ≡ get_offset (with b p)
  unfolding get_offset
  offset-same p e f =
      ap (λ n. offset_from n (get_page (with a p))) e
      ∙ ap (λ g. offset_from (get_number_of_items_per_page (with b p)) g) f

  -- The three things that a client may change, where two requests agree on them.
  run-same :
      (p : Pagination) (q : Query)
      → is_enabled (with a p) ≡ is_enabled (with b p)
      → get_client_number_of_items_per_page (with a p)
        ≡ get_client_number_of_items_per_page (with b p)
      → get_page (with a p) ≡ get_page (with b p)
      → paged a p q ≡ paged b p q
  run-same p q e n g =
      let m = number-same p n in
      paged-run a p q
      ∙ ap (λ z. run q z (get_number_of_items_per_page (with a p)) (get_offset (with a p))) e
      ∙ ap (λ z. run q (is_enabled (with b p)) z (get_offset (with a p))) m
      ∙ ap (λ z. run q (is_enabled (with b p)) (get_number_of_items_per_page (with b p)) z)
          (offset-same p m g)
      ∙ sym (paged-run b p q)

  -- With the pagination switched off and out of the hands of the client, there is one query.
  off-same :
      (p : Pagination) (q : Query)
      → p.client_enabled ≡ false
      → p.server_enabled ≡ false
      → paged a p q ≡ paged b p q
  unfolding is_enabled
  off-same p q c s =
      paged-run a p q
      ∙ ap (λ z. run q z (get_number_of_items_per_page (with a p)) (get_offset (with a p)))
          (is_enabled-off a p c s)
      ∙ sym (
          ap (λ z. run q z (get_number_of_items_per_page (with b p)) (get_offset (with b p)))
            (is_enabled-off b p c s))
      ∙ sym (paged-run b p q)

  -- what the documented parameters of a pagination agree on
  abbrev Agreed : Bool → Bool → Bool → Parameter → Parameter → Parameter → Type 0
  Agreed client server items x y z =
      ((client ≡ false) × (server ≡ false))
      ⊎ (((client ≡ false) ⊎ IsSame x) × IsSame y × ((items ≡ false) ⊎ IsSame z))

  agreed :
      (client server items : Bool) (x y z : Parameter)
      → All IsSame (
          if client || server
          then (if client then x ∷ [] else []) ++ y ∷ (if items then z ∷ [] else [])
          else [])
      → Agreed client server items x y z
  agreed false false items x y z h = inl (refl, refl)
  agreed false true false x y z (k, u) = inr (inl refl, k, inl refl)
  agreed false true true x y z (k, (l, u)) = inr (inl refl, k, inr l)
  agreed true server false x y z (j, (k, u)) = inr (inr j, k, inl refl)
  agreed true server true x y z (j, (k, (l, u))) = inr (inr j, k, inr l)

  paged-same :
      (p : Pagination) (q : Query)
      → All IsSame (pagination_parameters p)
      → paged a p q ≡ paged b p q
  unfolding is_enabled get_client_number_of_items_per_page
  paged-same p q h =
      elim (agreed p.client_enabled p.server_enabled p.client_items_per_page _ _ _ h) [
        | inl (c, s) ↦ off-same p q c s
        | inr (x, y, z) ↦
            run-same p q (elim x [ inl c ↦ rw c refl | inr e ↦ is_enabled-same p e ])
              (elim z [ inl c ↦ rw c refl | inr e ↦ client_items-same p e ]) (get_page-same p y)
      ]

  -- For an operation that reads a collection, and a query that is to be paged: under two requests that give every
  -- documented parameter of the pagination the same value, the pagination gives the same page of this query, or
  -- throws the same.
  pub paged-documented :
      (o : Operation) (p : Pagination) (fs : List ApiFilter) (q : Query)
      → o.kind ≡ collection p fs
      → is_method "GET" o ≡ true
      → All IsSame (get_pagination_parameters_for_operation o)
      → paged a p q ≡ paged b p q
  unfolding get_pagination_parameters_for_operation
  paged-documented o p fs q e g h = paged-same p q (subst (All IsSame) (documented o p fs e g) h)
