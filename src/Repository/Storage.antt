-- ===== src/Repository/Storage.antt =====
-- The pages that a repository stores on.
use t3api.Base.{◌≡◌, refl, ◌∙◌, true, false, not, ◌&&◌, ◌||◌, some, List, [], ◌∷◌, ◌++◌, arith}
use t3api.Base.Int.{ℤ, pos, ltb_ℤ, eqb_ℤ_iff}
use t3api.Exception.{runtime}
use t3api.Result.{thrown}
use t3api.Domain.Operation.{Operation}
use t3api.Runtime.{Ref, Platform, State}
use t3api.Repository.{
  Repository, place, contains, unique_from, place, all_descendants, get_recursive_storage_pids,
  get_instance_for_operation, add,
}

contains-++ : (n : ℤ) (ms ns : List ℤ) → contains n (ms ++ ns) ≡ (contains n ms || contains n ns)
contains-++ n [] ns = refl
contains-++ n (m ∷ ms) ns = ground (arith, contains-++ n ms ns)

contains-unique_from :
    (n : ℤ) (seen ns : List ℤ)
    → contains n (unique_from seen ns) ≡ (not (contains n seen) && contains n ns)
unfolding unique_from
contains-unique_from n seen [] = ground arith
contains-unique_from n seen (m ∷ ms) =
    ground
      (arith, contains-unique_from n seen ms, contains-unique_from n (m ∷ seen) ms, eqb_ℤ_iff m n)

-- With a positive depth the pages are those of the configuration and what is below them, to that
-- depth; otherwise they are those of the configuration.
contains-get_recursive_storage_pids :
    (descendants : ℤ → ℤ → List ℤ) (pids : List ℤ) (depth n : ℤ)
    → contains n (get_recursive_storage_pids descendants pids depth) ≡ (
        contains n pids
        || (ltb_ℤ (pos 0) depth && contains n (all_descendants (λ p. descendants p depth) pids)))
unfolding get_recursive_storage_pids
contains-get_recursive_storage_pids descendants pids depth n = ground (
  arith,
  contains-unique_from n [] (pids ++ all_descendants (λ p. descendants p depth) pids),
  contains-++ n pids (all_descendants (λ p. descendants p depth) pids),
)

contains-outside :
    (descendants : ℤ → ℤ → List ℤ) (pids : List ℤ) (depth n : ℤ)
    → contains n pids ≡ false
    → contains n (all_descendants (λ p. descendants p depth) pids) ≡ false
    → contains n (get_recursive_storage_pids descendants pids depth) ≡ false
contains-outside descendants pids depth n outside below =
    contains-get_recursive_storage_pids descendants pids depth n ∙ ground (arith, outside, below)

place-outside :
    {R : Type 0} (platform : Platform) (r : Repository) (x : Ref) (s : State R) (p : ℤ)
    (pids : List ℤ)
    → ltb_ℤ (pos 0) p ≡ true
    → r.storage_page_ids ≡ some pids
    → contains p pids ≡ false
    → place platform r x (some p) s ≡ (thrown (runtime 1568467681848), s)
place-outside platform r x s p pids positive respected outside =
    rw (place, positive, respected, outside) refl

storage_page_ids-configured :
    (descendants : ℤ → ℤ → List ℤ) (o : Operation) (first : ℤ) (rest : List ℤ)
    → o.persistence.storage_pids ≡ first ∷ rest
    → (get_instance_for_operation descendants o).storage_page_ids
      ≡ some (get_recursive_storage_pids descendants (first ∷ rest) o.persistence.recursion_level)
unfolding get_instance_for_operation
storage_page_ids-configured descendants o first rest configured = rw configured refl

-- For an operation with storage pages, an object that is on a page with a positive number outside these
-- pages and what is below them is not added: the call throws, and nothing else has happened.
pub add_outside :
    {R : Type 0} (platform : Platform) (o : Operation) (x : Ref) (s : State R) (first p : ℤ)
    (rest : List ℤ)
    → o.persistence.storage_pids ≡ first ∷ rest
    → platform.get_pid s.history x ≡ some p
    → ltb_ℤ (pos 0) p ≡ true
    → contains p (first ∷ rest) ≡ false
    → contains p
        (all_descendants (λ q. platform.descendants q o.persistence.recursion_level) (first ∷ rest))
      ≡ false
    → add platform (get_instance_for_operation platform.descendants o) x s
      ≡ (thrown (runtime 1568467681848), s)
unfolding add get_instance_for_operation
add_outside platform o x s first p rest configured on positive outside below =
    rw
      (
        add,
        on,
        place-outside platform (get_instance_for_operation platform.descendants o) x s p
            (get_recursive_storage_pids platform.descendants (first ∷ rest)
              o.persistence.recursion_level)
            positive (storage_page_ids-configured platform.descendants o first rest configured)
            (contains-outside platform.descendants (first ∷ rest) o.persistence.recursion_level p
              outside below),
      )
      refl
