-- ===== src/Resources/Laws.antt =====
-- The cache of resources and the lookup by class (Classes/Domain/Repository/ApiResourceRepository.php).
use t3api.Base.{
  String, false, Bool-cases, Option, none, some, List, [], ◌∷◌, ◌≡◌, refl, sym, ap, ◌∙◌, ◌==◌,
  eq_iff, eq_refl, inl, inr, any, eq_iff,
}
use mathlib.Core.List.{Mem, mem-cons_self, mem-cons_of_mem}
use t3api.Result.{Result, ok, thrown, returned≢thrown, ok-injective}
use t3api.Domain.Resource.{ApiResource}
use t3api.Resources.{
  Sources, Cache, cached, create_all, get_all_domain_models, get_all, from_cache, store,
  get_by_entity,
}

module _ (sources : Sources) (id : String) where
  stored :
      (r : Result (List ApiResource)) (s : Cache) (rs : List ApiResource)
      → (store sources id r s).0 ≡ ok rs
      → cached id (store sources id r s).1 ≡ some rs
  unfolding cached
  stored (thrown e) s rs h = absurd (returned≢thrown (sym h))
  stored (ok qs) s rs h = rw (eq_refl id) (ap some (ok-injective h))

  cached-from_cache :
      (o : Option (List ApiResource)) (s : Cache) (rs : List ApiResource)
      → cached id s ≡ o
      → (from_cache sources id o s).0 ≡ ok rs
      → cached id (from_cache sources id o s).1 ≡ some rs
  cached-from_cache none s rs e h =
      stored (create_all sources (get_all_domain_models sources)) s rs h
  cached-from_cache (some qs) s rs e h = e ∙ ap some (ok-injective h)

  get_all-cached :
      (later : Sources) (s : Cache) (rs : List ApiResource)
      → cached id s ≡ some rs
      → get_all later id s ≡ (ok rs, s)
  unfolding get_all
  get_all-cached later s rs e = ap (λ o. from_cache later id o s) e

  -- Once the resources have been made, they are not made again: the next call answers with the same ones
  -- from the cache and leaves it as it is, whatever has become of the files and the classes.
  get_all-again :
      (later : Sources) (s : Cache) (rs : List ApiResource)
      → (get_all sources id s).0 ≡ ok rs
      → get_all later id (get_all sources id s).1 ≡ (ok rs, (get_all sources id s).1)
  unfolding get_all
  get_all-again later s rs h =
      get_all-cached later (get_all sources id s).1 rs (cached-from_cache (cached id s) s rs refl h)

-- The resource of a class is one of the resources, and is for that class; there is none exactly where no
-- resource is for the class.
abbrev IsFor : String → List ApiResource → Option ApiResource → Type 0
IsFor name rs none = any (λ (r : ApiResource). r.entity == name) rs ≡ false
IsFor name rs (some r) = (r.entity ≡ name) × Mem r rs

IsFor-later :
    (name : String) (r : ApiResource) (rs : List ApiResource) (o : Option ApiResource)
    → (r.entity == name) ≡ false
    → IsFor name rs o
    → IsFor name (r ∷ rs) o
IsFor-later name r rs none e h = rw e h
IsFor-later name r rs (some q) e (f, m) = (f, mem-cons_of_mem r m)

-- What `getByEntity` gives is the resource of the class, or none where there is no such resource.
get_by_entity-IsFor :
    (name : String) (rs : List ApiResource) → IsFor name rs (get_by_entity name rs)
unfolding get_by_entity
get_by_entity-IsFor name [] = refl
get_by_entity-IsFor name (r ∷ rs) = elim (Bool-cases (r.entity == name)) [
  | inl e ↦ rw e ((eq_iff r.entity name).0 e, mem-cons_self)
  | inr e ↦ rw e (IsFor-later name r rs (get_by_entity name rs) e (get_by_entity-IsFor name rs))
]
