-- ===== src/Repository/Meaning.antt =====
-- The query that the filters of a request make.
use t3api.Base.{
  ◌∙◌, String, ◌≡◌, refl, Bool, ◌&&◌, Option, none, some, List, [], ◌∷◌, ◌==◌, all, any,
  Option-cases, inl, inr,
}
use t3api.Result.{Result, ok, thrown}
use t3api.Result
use t3api.Php.{Fields, get}
use t3api.Query.{Query, Constraint}
use t3api.Filter.{Database, filter_property}
use t3api.Repository.{Named, Groups, add_constraint, apply_filters, matching}
use t3api.Repository.Groups.{build, selects, meets, selects-build}

abbrev with_constraint :
    String
    → Option Constraint
    → List (String × Constraint) × Query
    → List (String × Constraint) × Query
with_constraint name none r = r
with_constraint name (some c) r = ((name, c) ∷ r.0, r.1)

module _ (db : Database) where
  -- The constraints that the filters return, each under the name of its parameter, and the query that
  -- they leave.
  unfoldable pub collect : Fields → List Named → Query → Result (List (String × Constraint) × Query)
  collect params [] q = ok ([], q)
  collect params (f ∷ fs) q = elim (get f.name params) [
    | none ↦ collect params fs q
    | some v ↦
        Result.◌>>=◌ (filter_property db f.named_filter v q)
          λ r. Result.◌>>=◌ (collect params fs r.1) λ s. ok (with_constraint f.name r.0 s)
  ]

  -- the constraints put into groups
  abbrev grouped : Groups → List (String × Constraint) × Query → Result (Groups × Query)
  grouped g s = ok (build s.0 g, s.1)

  regroup :
      (name : String) (o : Option Constraint) (g : Groups)
      (m : Result (List (String × Constraint) × Query))
      → Result.◌>>=◌ m (grouped (add_constraint db name o g))
        ≡ Result.◌>>=◌ (Result.◌>>=◌ m (λ s. ok (with_constraint name o s))) (grouped g)
  unfolding build
  regroup name none g (ok s) = refl
  regroup name none g (thrown e) = refl
  regroup name (some c) g (ok s) = refl
  regroup name (some c) g (thrown e) = refl

  apply_filters_lem :
      (params : Fields) (fs : List Named) (g : Groups) (q : Query)
      → apply_filters db params fs g q ≡ Result.◌>>=◌ (collect params fs q) (grouped g)
  unfolding apply_filters collect build
  apply_filters_lem params [] g q = refl
  apply_filters_lem params (f ∷ fs) g q = elim (Option-cases (get f.name params)) [
    | inl unset ↦ rw (unset, apply_filters, collect) (apply_filters_lem params fs g q)
    | inr (v, set) ↦
        rw (set, apply_filters, collect)
          (Result.>>=-chain (filter_property db f.named_filter v q)
            (λ r. Result.◌>>=◌ (collect params fs r.1) (λ s. ok (with_constraint f.name r.0 s)))
            (λ r. apply_filters db params fs (add_constraint db f.name r.0 g) r.1) (grouped g)
            (λ r.
              apply_filters_lem params fs (add_constraint db f.name r.0 g) r.1
              ∙ regroup f.name r.0 g (collect params fs r.1)))
  ]

  -- If the filters of a request return at least one constraint, `findFiltered` makes a query that
  -- selects the records which, for the parameter of every constraint, meet some constraint of that
  -- parameter. `holds` says which simple constraints a record meets.
  pub apply_filters_meaning :
      (holds : Constraint → Bool) (params : Fields) (fs : List Named) (q after : Query)
      (p : String × Constraint) (ps : List (String × Constraint))
      → collect params fs q ≡ ok (p ∷ ps, after)
      → (groups : Groups) × (apply_filters db params fs [] q ≡ ok (groups, after))
        × (selects holds (matching groups after)
            ≡ all (λ a. any (λ b. b.0 == a.0 && meets holds b.1) (p ∷ ps)) (p ∷ ps))
  apply_filters_meaning holds params fs q after p ps e = (
    build (p ∷ ps) [],
    apply_filters_lem params fs [] q ∙ rw e refl,
    selects-build holds p ps after,
  )
