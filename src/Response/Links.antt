-- ===== src/Response/Links.antt =====
-- The links of a collection to its pages.
use t3api.Base.{
  ◌⊎◌, inl, inr, zero, Option, if◌then◌else◌, ℕ, suc, ◌+◌, ◌*◌, ◌/◌, ◌≤◌, ◌<◌, String, ◌≡◌, refl,
  ap, ◌∙◌, true, none, some, [], ◌∷◌, map, arith,
}
use native.Mathlib.Nat.{
  zero-add, add-div_right, zero-lt-suc, div-add-mod', mod-lt, suc-mul, div-eq_of_lt,
}
use t3api.Base.Int.{ℤ, pos, ltb_ℤ, ◌+ℤ◌, ◌-ℤ◌}
use t3api.Result.{ok}
use t3api.Php.{Fields}
use t3api.Domain.Pagination.{Pagination, is_enabled, get_number_of_items_per_page, get_page}
use t3api.Response.{View, range_1, page_uri, get_view, count_up}

ceiling : (total n : ℕ) → (suc total + n) / suc n ≡ suc (total / suc n)
ceiling total n =
    ap (λ m. m / suc n) (omega arith) ∙ add-div_right total (zero-lt-suc n) ∙ omega arith

fits : (total n : ℕ) → total / suc n * suc n < suc total
fits total n = omega (arith, div-add-mod' total (suc n))

holds : (total n : ℕ) → suc total ≤ suc (total / suc n) * suc n
holds total n = omega (
  arith,
  div-add-mod' total (suc n),
  mod-lt total (zero-lt-suc n),
  suc-mul (total / suc n) (suc n),
)

none_needed : (n : ℕ) → (0 + n) / suc n ≡ 0
none_needed n = ap (λ m. m / suc n) (zero-add n) ∙ div-eq_of_lt (omega arith)

plus_one : (k : ℕ) → pos (suc k) +ℤ pos 1 ≡ pos (suc (suc k))
unfolding ◌+ℤ◌
plus_one k = ground arith

minus_one : (k : ℕ) → pos (suc (suc k)) -ℤ pos 1 ≡ pos (suc k)
unfolding ◌-ℤ◌
minus_one k = ground arith

-- where the links of page k + 1 of last + 1 pages lead to
module _ (f : ℤ → String) where
  abbrev next_link : ℕ → ℕ → Option String
  next_link k last =
      if ltb_ℤ (pos (suc k)) (pos (suc last)) then some (f (pos (suc k) +ℤ pos 1)) else none

  abbrev prev_link : ℕ → Option String
  prev_link k = if ltb_ℤ (pos 1) (pos (suc k)) then some (f (pos (suc k) -ℤ pos 1)) else none

  next_link-cases :
      (k last : ℕ)
      → ((last ≤ k) × (next_link k last ≡ none))
        ⊎ ((k < last) × (next_link k last ≡ some (f (pos (suc (suc k))))))
  next_link-cases k last = rw (plus_one k) (ground arith)

  prev_link-cases :
      (k : ℕ)
      → ((k ≡ 0) × (prev_link k ≡ none))
        ⊎ ((j : ℕ) × (k ≡ suc j) × (prev_link k ≡ some (f (pos (suc j)))))
  prev_link-cases zero = inl (refl, refl)
  prev_link-cases (suc j) = inr (j, refl, rw (minus_one j) (ground arith))

module _ (build : Fields → String) (path : String) (query : Fields) (p : Pagination) where
  abbrev pub uri : ℤ → String
  uri = page_uri build path query p.page_parameter_name

  -- On a page with a positive number, with an enabled pagination and a positive page size, a collection
  -- with members has a link to each page from 1 to the last, the least number of pages
  -- that holds them all; the last page's link is among them, and the neighbours of the current page are
  -- linked where they are on the right side of the first and the last page, and only there.
  pub get_view-pages :
      (total n k : ℕ)
      → is_enabled p ≡ true
      → get_number_of_items_per_page p ≡ ok (pos (suc n))
      → get_page p ≡ pos (suc k)
      → (v : View) × (last : ℕ) × (get_view build path query p (suc total) ≡ ok (some v))
        × (v.pages ≡ map uri (count_up 1 (suc last)))
        × (v.last_uri ≡ uri (pos (suc last)))
        × (last * suc n < suc total)
        × (suc total ≤ suc last * suc n)
        × (((last ≤ k) × (v.next_uri ≡ none))
            ⊎ ((k < last) × (v.next_uri ≡ some (uri (pos (suc (suc k)))))))
        × (((k ≡ 0) × (v.prev_uri ≡ none))
            ⊎ ((j : ℕ) × (k ≡ suc j) × (v.prev_uri ≡ some (uri (pos (suc j))))))
  unfolding get_view
  get_view-pages total n k on sized here =
      rw (on, sized, here, get_view, ceiling total n)
        (
          _,
          total / suc n,
          refl,
          refl,
          refl,
          fits total n,
          holds total n,
          next_link-cases uri k (total / suc n),
          prev_link-cases uri k,
        )

  -- With an enabled pagination and a positive page size, an empty collection has links to the pages 1 and 0, and its last page is page 0.
  get_view-empty :
      (n : ℕ)
      → is_enabled p ≡ true
      → get_number_of_items_per_page p ≡ ok (pos (suc n))
      → (v : View) × (get_view build path query p 0 ≡ ok (some v))
        × (v.pages ≡ uri (pos 1) ∷ uri (pos 0) ∷ [])
        × (v.last_uri ≡ uri (pos 0))
  unfolding get_view range_1
  get_view-empty n on sized = rw (on, sized, get_view, none_needed n) (_, refl, refl, refl)
