-- ===== src/Domain/Pagination/Bounds.antt =====
-- The page size and the offset of a paginated query.
use t3api.Base.{
  ℕ, suc, ◌*◌, ◌≤◌, ◌<◌, ◌≡◌, ◌≢◌, ◌↔◌, ◌⊎◌, inl, inr, Option-cases, none, some, arith,
}
use t3api.Base.Int.{ℤ, pos, ◌≤ℤ◌, int_max}
use t3api.Exception.{type_error, value_error}
use t3api.Result.{ok, thrown}
use t3api.Domain.Pagination.{
  Pagination, requested_items, get_number_of_items_per_page, get_page, get_offset,
}

-- The page size is never 0. It is at most the configured maximum, unless that is 0, and at most what
-- was asked for, unless that is 0 or nothing.
pub get_number_of_items_per_page_bounds :
    (p : Pagination) (n : ℤ)
    → get_number_of_items_per_page p ≡ ok n
    → (n ≢ pos 0)
      × ((p.maximum_items_per_page ≡ pos 0) ⊎ (n ≤ℤ p.maximum_items_per_page))
      × ((requested_items p ≡ none)
          ⊎ ((m : ℤ) × (requested_items p ≡ some m) × ((m ≡ pos 0) ⊎ (n ≤ℤ m))))
unfolding get_number_of_items_per_page
get_number_of_items_per_page_bounds p n h = (
  ground arith,
  ground arith,
  elim (Option-cases (requested_items p)) [ inl e ↦ inl e | inr (m, e) ↦ inr (m, e, ground arith) ],
)

-- There is no page size exactly when the maximum is 0 and nothing but 0 is asked for; the only
-- failure is the ValueError of `min`.
get_number_of_items_per_page-fails_iff :
    (p : Pagination)
    → (get_number_of_items_per_page p ≡ thrown value_error) ↔ (
        (p.maximum_items_per_page ≡ pos 0)
        × ((requested_items p ≡ none) ⊎ (requested_items p ≡ some (pos 0))))
unfolding get_number_of_items_per_page
get_number_of_items_per_page-fails_iff p = ground arith

le_or_gt : (m n : ℕ) → (m ≤ n) ⊎ (n < m)
le_or_gt m n = ground arith

pub get_offset_fits :
    (p : Pagination) (k n : ℕ)
    → get_page p ≡ pos (suc k)
    → suc k ≤ int_max
    → get_number_of_items_per_page p ≡ ok (pos n)
    → k * n ≤ int_max
    → get_offset p ≡ ok (pos (k * n))
unfolding get_offset
get_offset_fits p k n page small items fits = rw (items, page) (ground arith)

get_offset_exceeds :
    (p : Pagination) (k n : ℕ)
    → get_page p ≡ pos (suc k)
    → suc k ≤ int_max
    → get_number_of_items_per_page p ≡ ok (pos n)
    → int_max < k * n
    → get_offset p ≡ thrown type_error
unfolding get_offset
get_offset_exceeds p k n page small items exceeds = rw (items, page) (ground arith)

-- On page k + 1, itself an `int`, with n items to a page the offset is k * n if that is an `int`, and a TypeError
-- otherwise.
pub get_offset_of_page :
    (p : Pagination) (k n : ℕ)
    → get_page p ≡ pos (suc k)
    → suc k ≤ int_max
    → get_number_of_items_per_page p ≡ ok (pos n)
    → ((k * n ≤ int_max) × (get_offset p ≡ ok (pos (k * n))))
      ⊎ ((int_max < k * n) × (get_offset p ≡ thrown type_error))
get_offset_of_page p k n page small items = elim (le_or_gt (k * n) int_max) [
  | inl fits ↦ inl (fits, get_offset_fits p k n page small items fits)
  | inr exceeds ↦ inr (exceeds, get_offset_exceeds p k n page small items exceeds)
]
