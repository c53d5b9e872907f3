-- ===== src/Response/Pages.antt =====
-- Paging through a collection.
use t3api.Base.{
  ℕ, zero, suc, ◌+◌, ◌*◌, ◌/◌, ◌≤◌, ◌≡◌, refl, sym, ap, ◌∙◌, true, some, List, [], ◌∷◌, ◌++◌,
  length, take, drop, arith,
}
use native.Mathlib.Nat.{
  zero-add, suc-add, suc-mul, zero-mul, mul-one, mul_comm, mul-le-mul_left, le_trans, le_of_eq,
  div-add-mod, mod-lt, zero-lt-suc,
}
use t3api.Base.Int.{pos, int_max}
use t3api.Result.{Result, ok, ◌>>=◌}
use t3api.Php.{Fields}
use t3api.Domain.Pagination.{
  Pagination, set_parameters_from_request, is_enabled, get_number_of_items_per_page, get_page,
  get_offset,
}
use t3api.Domain.Pagination.Bounds.{get_offset_fits}
use t3api.Query.{Query}
use t3api.Response.{apply_pagination, last_page}

-- the members on the pages 1 to k, in order, where page i is asked for by `parameters i`
abbrev pub members_up_to {ℓ} :
    {A : Type ℓ} → (Query → List A) → (ℕ → Fields) → Pagination → Query → ℕ → Result (List A)
members_up_to execute parameters p q zero = ok []
members_up_to execute parameters p q (suc k) = do
  before ← members_up_to execute parameters p q k
  paged ← apply_pagination (parameters (suc k)) p q
  ok (before ++ execute paged.0)

take-nil : {A : Type 0} (n : ℕ) → take {A = A} n [] ≡ []
take-nil zero = refl
take-nil (suc n) = refl

take-add : {A : Type 0} (m n : ℕ) (xs : List A) → take (m + n) xs ≡ take m xs ++ take n (drop m xs)
take-add zero n xs = ap (λ m. take m xs) (zero-add n)
take-add (suc m) n [] = take-nil (suc m + n) ∙ sym (take-nil n)
take-add (suc m) n (x ∷ xs) =
    ap (λ k. take k (x ∷ xs)) (suc-add m n) ∙ ap (λ z. x ∷ z) (take-add m n xs)

take-all : {A : Type 0} (n : ℕ) (xs : List A) → length xs ≤ n → take n xs ≡ xs
take-all zero [] h = refl
take-all (suc n) [] h = refl
take-all zero (x ∷ xs) h = absurd (omega arith)
take-all (suc n) (x ∷ xs) h = ap (λ z. x ∷ z) (take-all n xs (omega arith))

lower_page : (k n : ℕ) → suc k * suc n ≤ int_max → k * suc n ≤ int_max
lower_page k n h = le_trans (omega (arith, suc-mul k (suc n))) h

pages_fit : (k n : ℕ) → suc k * suc n ≤ int_max → suc k ≤ int_max
pages_fit k n h =
    le_trans (le_trans (le_of_eq (sym (mul-one (suc k)))) (mul-le-mul_left (suc k) (omega arith))) h

take-page :
    {A : Type 0} (k n : ℕ) (xs : List A)
    → take (suc k * suc n) xs ≡ take (k * suc n) xs ++ take (suc n) (drop (k * suc n) xs)
take-page k n xs = ap (λ m. take m xs) (suc-mul k (suc n)) ∙ take-add (k * suc n) (suc n) xs

last_covers :
    (total n last : ℕ) → last_page total (pos (suc n)) ≡ ok (pos last) → total ≤ last * suc n
unfolding last_page
last_covers total n last h =
    let m = total + n in
    let is_last : m / suc n ≡ last = ground arith in
    omega (
      arith,
      div-add-mod m (suc n),
      mod-lt m (zero-lt-suc n),
      is_last,
      mul_comm last (suc n),
      ap (λ z. suc n * z) is_last,
    )

module _ {A : Type 0} (execute : Query → List A) (parameters : ℕ → Fields) (p : Pagination)
    (q : Query) (n : ℕ)
    (pages : (limit offset : ℕ)
      → execute (record q { limit = some (pos limit); offset = some (pos offset) })
        ≡ take limit (drop offset (execute q)))
    (enabled : (k : ℕ) → is_enabled (set_parameters_from_request (parameters k) p) ≡ true)
    (asked : (k : ℕ) → get_page (set_parameters_from_request (parameters (suc k)) p) ≡ pos (suc k))
    (sized : (k : ℕ)
      → get_number_of_items_per_page (set_parameters_from_request (parameters k) p)
        ≡ ok (pos (suc n))) where
  offset_of_page :
      (k : ℕ)
      → suc k * suc n ≤ int_max
      → get_offset (set_parameters_from_request (parameters (suc k)) p) ≡ ok (pos (k * suc n))
  offset_of_page k small =
      get_offset_fits (set_parameters_from_request (parameters (suc k)) p) k (suc n) (asked k)
        (pages_fit k n small) (sized (suc k)) (lower_page k n small)

  apply_pagination_of_page :
      (k : ℕ)
      → suc k * suc n ≤ int_max
      → apply_pagination (parameters (suc k)) p q
        ≡ ok (
          record q { limit = some (pos (suc n)); offset = some (pos (k * suc n)) },
          set_parameters_from_request (parameters (suc k)) p,
        )
  unfolding apply_pagination
  apply_pagination_of_page k small =
      rw (apply_pagination, enabled (suc k), sized (suc k), offset_of_page k small) refl

  members_up_to-take :
      (k : ℕ)
      → k * suc n ≤ int_max
      → members_up_to execute parameters p q k ≡ ok (take (k * suc n) (execute q))
  members_up_to-take zero small = ap (λ m. ok (take m (execute q))) (sym (zero-mul (suc n)))
  members_up_to-take (suc k) small =
      rw
        (
          members_up_to-take k (lower_page k n small),
          apply_pagination_of_page k small,
          pages (suc n) (k * suc n),
        )
        (ap ok (sym (take-page k n (execute q))))

  -- Where the database takes a limit and an offset for what they are, the pagination is enabled, the
  -- page size is the same positive number on every page and the numbers stay in the range of `int`,
  -- pages that are asked for one after the other, up to the last one that is linked, show every member
  -- once and in order.
  pub members_up_to_last :
      (last : ℕ)
      → last_page (length (execute q)) (pos (suc n)) ≡ ok (pos last)
      → last * suc n ≤ int_max
      → members_up_to execute parameters p q last ≡ ok (execute q)
  unfolding last_page
  members_up_to_last last is_last small =
      members_up_to-take last small
      ∙ ap ok
          (take-all (last * suc n) (execute q) (last_covers (length (execute q)) n last is_last))
