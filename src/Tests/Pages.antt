-- ===== src/Tests/Pages.antt =====
-- Tests of collection responses and of the script of the documentation.
use t3api.Base.{
  ◌⊎◌, ℕ, suc, String, ◌≡◌, refl, ◌≤◌, ◌<◌, ◌*◌, true, false, none, some, List, [], ◌∷◌, arith, map,
  take, drop,
}
use t3api.Base.Int.{pos, ℤ}
use t3api.Result.{ok}
use t3api.Php.{int, Fields}
use t3api.Domain.Pagination.{
  Pagination, is_enabled, get_number_of_items_per_page, get_page, set_parameters_from_request,
}
use t3api.Query.{Query}
use t3api.Response.{View, get_view, count_up, last_page}
use t3api.Response.Pages.{members_up_to, members_up_to_last}
use t3api.Response.Links.{uri, get_view-pages}
use t3api.Swagger.{Window, options, called_with, run, load, run_starts_once}
use t3api.Tests.Samples.{pagination, query}

-- a database of three rows that reads limits and offsets which are not negative
abbrev rows : List ℕ
rows = 11 ∷ 12 ∷ 13 ∷ []

abbrev natural : ℤ → ℕ
natural (pos n) = n
natural _ = 0

abbrev execute : Query → List ℕ
execute q = elim q.limit [
  | none ↦ rows
  | some n ↦ take (natural n) (drop (elim q.offset [ none ↦ 0 | some m ↦ natural m ]) rows)
]

abbrev parameters : ℕ → Fields
parameters k = ("page", int (pos k)) ∷ []

enabled : (k : ℕ) → is_enabled (set_parameters_from_request (parameters k) pagination) ≡ true
unfolding is_enabled set_parameters_from_request
enabled k = refl

asked :
    (k : ℕ) → get_page (set_parameters_from_request (parameters (suc k)) pagination) ≡ pos (suc k)
unfolding get_page set_parameters_from_request t3api.Php.get t3api.Php.to_int
asked k = refl

sized :
    (k : ℕ)
    → get_number_of_items_per_page (set_parameters_from_request (parameters k) pagination)
      ≡ ok (pos 2)
unfolding get_number_of_items_per_page set_parameters_from_request
    t3api.Domain.Pagination.requested_items
sized k = refl

two_pages : last_page 3 (pos 2) ≡ ok (pos 2)
unfolding last_page
two_pages = refl

members_up_to_last_example :
    members_up_to execute parameters pagination query 2 ≡ ok (execute query)
members_up_to_last_example =
    members_up_to_last execute parameters pagination query 1 (λ limit offset. refl) enabled asked
      sized 2 two_pages (omega arith)

abbrev build : Fields → String
build fs = "q"

abbrev second_page : Pagination
second_page = record pagination { parameters = parameters 2 }

on : is_enabled second_page ≡ true
unfolding is_enabled
on = refl

of_two : get_number_of_items_per_page second_page ≡ ok (pos 2)
unfolding get_number_of_items_per_page t3api.Domain.Pagination.requested_items
of_two = refl

second : get_page second_page ≡ pos 2
unfolding get_page t3api.Php.get t3api.Php.to_int
second = refl

get_view-pages_example :
    (v : View) × (last : ℕ) × (get_view build "/cars" [] second_page 3 ≡ ok (some v))
    × (v.pages ≡ map (uri build "/cars" [] second_page) (count_up 1 (suc last)))
    × (v.last_uri ≡ uri build "/cars" [] second_page (pos (suc last)))
    × (last * 2 < 3)
    × (3 ≤ suc last * 2)
    × (((last ≤ 1) × (v.next_uri ≡ none))
        ⊎ ((1 < last) × (v.next_uri ≡ some (uri build "/cars" [] second_page (pos 3)))))
    × (((◌≡◌ {A = ℕ} 1 0) × (v.prev_uri ≡ none))
        ⊎ ((j : ℕ) × (1 ≡ suc j)
            × (v.prev_uri ≡ some (uri build "/cars" [] second_page (pos (suc j))))))
get_view-pages_example = get_view-pages build "/cars" [] second_page 2 1 1 on of_two second

abbrev opened : Window
opened = record { bundle = true; element = some (some "/spec.json"); preset = true }

-- the script of the preset comes too late
abbrev early : Window
early = record opened { preset = false }

early_test : run (early ∷ opened ∷ []) load ≡ record { is_polling = false; started = [] }
unfolding run load
early_test = refl

run_starts_once_example :
    run (record opened { bundle = false } ∷ opened ∷ opened ∷ []) load
    ≡ record { is_polling = false; started = called_with (options (some (some "/spec.json")) true) }
run_starts_once_example =
    run_starts_once (record opened { bundle = false } ∷ []) (opened ∷ []) opened (refl, tt) refl
