-- ===== src/Repository/Groups.antt =====
-- What the constraint of a filtered query means: AND between parameters, OR within one.
use t3api.Base.{
  eq_refl, all, String, ◌≡◌, refl, ap, Bool, true, false, ◌&&◌, ◌||◌, none, some, List, [], ◌∷◌,
  ◌++◌, ◌==◌, any, if◌then◌else◌, arith, eq_iff, Bool-cases, inl, inr,
}
use mathlib.Core.Path.{fun_ext, ◌≡⟨◌⟩◌, ◌∎}
use t3api.Query.{
  Query, Constraint, Constraints, nil, cons, spread, logical_or, logical_and, equals, is_in, like,
  greater_than, greater_than_or_equal, less_than, less_than_or_equal,
}
use t3api.Repository.{matching, Groups, add_to_group, disjunctions}

and_true : (b : Bool) → (b && true) ≡ b
and_true true = refl
and_true false = refl

-- the grouping by itself, over the constraints that the filters return
unfoldable pub build : List (String × Constraint) → Groups → Groups
unfolding add_to_group
build [] g = g
build ((n, c) ∷ ps) g = build ps (add_to_group n c g)

-- Whether a record meets a constraint, given whether it meets the simple ones.
module _ (holds : Constraint → Bool) where
  mutual
    pub meets : Constraint → Bool
    meets (logical_and cs) = meets_all cs
    meets (logical_or cs) = meets_any cs
    meets (equals p o) = holds (equals p o)
    meets (is_in p os) = holds (is_in p os)
    meets (like p s) = holds (like p s)
    meets (greater_than p o) = holds (greater_than p o)
    meets (greater_than_or_equal p o) = holds (greater_than_or_equal p o)
    meets (less_than p o) = holds (less_than p o)
    meets (less_than_or_equal p o) = holds (less_than_or_equal p o)

    pub meets_all : Constraints → Bool
    meets_all nil = true
    meets_all (cons c cs) = meets c && meets_all cs

    pub meets_any : Constraints → Bool
    meets_any nil = false
    meets_any (cons c cs) = meets c || meets_any cs

  -- a query without a constraint lets every record pass
  abbrev pub selects : Query → Bool
  selects q = elim q.constraint [ none ↦ true | some c ↦ meets c ]

  any-meets : (cs : List Constraint) → meets_any (spread cs) ≡ any meets cs
  unfolding meets
  any-meets [] = refl
  any-meets (c ∷ cs) = ap (λ b. meets c || b) (any-meets cs)

  -- the groups, as the query reads them
  all_groups : Groups → Bool
  all_groups [] = true
  all_groups ((n, cs) ∷ g) = any meets cs && all_groups g

  all_meets : (g : Groups) → meets_all (spread (disjunctions g)) ≡ all_groups g
  unfolding meets all_groups
  all_meets [] = refl
  all_meets ((n, cs) ∷ g) = ground (arith, any-meets cs, all_meets g)

  any_in : String → Groups → Bool
  any_in m [] = false
  any_in m ((n, cs) ∷ g) = if n == m then any meets cs else any_in m g

  abbrev all_names : (String → Bool) → Groups → Bool
  all_names P [] = true
  all_names P ((n, cs) ∷ g) = P n && all_names P g

  abbrev absent : String → Groups → Bool
  absent m [] = true
  absent m ((n, cs) ∷ g) = if n == m then false else absent m g

  abbrev distinct : Groups → Bool
  distinct [] = true
  distinct ((n, cs) ∷ g) = absent n g && distinct g

  any-append :
      (cs : List Constraint) (c : Constraint) → any meets (cs ++ c ∷ []) ≡ (any meets cs || meets c)
  any-append [] c = ground arith
  any-append (d ∷ cs) c = ground (arith, any-append cs c)

  any_in-add :
      (m n : String) (c : Constraint) (g : Groups)
      → any_in m (add_to_group n c g) ≡ (any_in m g || (n == m && meets c))
  unfolding any_in add_to_group
  any_in-add m n c [] = ground arith
  any_in-add m n c ((k, cs) ∷ g) =
      ground (arith, any_in-add m n c g, any-append cs c, eq_iff k n, eq_iff k m, eq_iff n m)

  all_names-add :
      (P : String → Bool) (n : String) (c : Constraint) (g : Groups)
      → all_names P (add_to_group n c g) ≡ (P n && all_names P g)
  unfolding add_to_group
  all_names-add P n c [] = refl
  all_names-add P n c ((k, cs) ∷ g) = elim (Bool-cases (k == n)) [
    | inl same ↦ rw same (rw ((eq_iff k n).0 same) (ground arith))
    | inr other ↦ rw other (ground (arith, all_names-add P n c g))
  ]

  absent-add :
      (m n : String) (c : Constraint) (g : Groups)
      → absent m (add_to_group n c g) ≡ (if n == m then false else absent m g)
  unfolding add_to_group
  absent-add m n c [] = ground arith
  absent-add m n c ((k, cs) ∷ g) =
      ground (arith, absent-add m n c g, eq_iff k n, eq_iff k m, eq_iff n m)

  distinct-add :
      (n : String) (c : Constraint) (g : Groups)
      → distinct g ≡ true
      → distinct (add_to_group n c g) ≡ true
  unfolding add_to_group
  distinct-add n c [] h = refl
  distinct-add n c ((k, cs) ∷ g) h =
      ground (arith, distinct-add n c g, absent-add k n c g, eq_iff k n, eq_iff n k)

  any_in-build :
      (m : String) (ps : List (String × Constraint)) (g : Groups)
      → any_in m (build ps g) ≡ (any_in m g || any (λ p. p.0 == m && meets p.1) ps)
  unfolding build
  any_in-build m [] g = ground arith
  any_in-build m ((n, c) ∷ ps) g =
      ground (arith, any_in-build m ps (add_to_group n c g), any_in-add m n c g)

  any_in-build_nil :
      (m : String) (ps : List (String × Constraint))
      → any_in m (build ps []) ≡ any (λ p. p.0 == m && meets p.1) ps
  unfolding any_in
  any_in-build_nil m ps = any_in-build m ps []

  all_names-build :
      (P : String → Bool) (ps : List (String × Constraint)) (g : Groups)
      → all_names P (build ps g) ≡ (all (λ p. P p.0) ps && all_names P g)
  unfolding build
  all_names-build P [] g = refl
  all_names-build P ((n, c) ∷ ps) g =
      ground (arith, all_names-build P ps (add_to_group n c g), all_names-add P n c g)

  distinct-build :
      (ps : List (String × Constraint)) (g : Groups)
      → distinct g ≡ true
      → distinct (build ps g) ≡ true
  unfolding build
  distinct-build [] g h = h
  distinct-build ((n, c) ∷ ps) g h = distinct-build ps (add_to_group n c g) (distinct-add n c g h)

  abbrev nonempty : Groups → Bool
  nonempty [] = false
  nonempty (x ∷ g) = true

  nonempty-add : (n : String) (c : Constraint) (g : Groups) → nonempty (add_to_group n c g) ≡ true
  unfolding add_to_group
  nonempty-add n c [] = refl
  nonempty-add n c ((k, cs) ∷ g) = ground arith

  nonempty-build :
      (ps : List (String × Constraint)) (g : Groups)
      → nonempty g ≡ true
      → nonempty (build ps g) ≡ true
  unfolding build
  nonempty-build [] g h = h
  nonempty-build ((n, c) ∷ ps) g h = nonempty-build ps (add_to_group n c g) (nonempty-add n c g)

  all_names-ext :
      (n : String) (b : Bool) (P : String → Bool) (g : Groups)
      → absent n g ≡ true
      → all_names (λ m. if n == m then b else P m) g ≡ all_names P g
  all_names-ext n b P [] h = refl
  all_names-ext n b P ((k, cs) ∷ g) h =
      ground (arith, all_names-ext n b P g, eq_iff k n, eq_iff n k)

  all_groups-names : (g : Groups) → distinct g ≡ true → all_groups g ≡ all_names (λ m. any_in m g) g
  unfolding all_groups any_in
  all_groups-names [] h = refl
  all_groups-names ((n, cs) ∷ g) h =
      ground
        (arith, eq_refl n, all_groups-names g, all_names-ext n (any meets cs) (λ m. any_in m g) g)

  selects-matching :
      (g : Groups) (q : Query) → nonempty g ≡ true → selects (matching g q) ≡ all_groups g
  unfolding matching meets
  selects-matching [] q h = cc
  selects-matching (x ∷ g) q h = all_meets (x ∷ g)

  -- With at least one constraint, a record passes exactly if, for the parameter of every constraint, it
  -- meets some constraint of that parameter.
  pub selects-build :
      (p : String × Constraint) (ps : List (String × Constraint)) (q : Query)
      → selects (matching (build (p ∷ ps) []) q)
        ≡ all (λ a. any (λ b. b.0 == a.0 && meets b.1) (p ∷ ps)) (p ∷ ps)
  selects-build (n, c) ps q =
      let g = build ((n, c) ∷ ps) [] in
      selects (matching g q)
      ≡⟨ selects-matching g q
          (unfold build in nonempty-build ps (add_to_group n c []) (nonempty-add n c [])) ⟩
        all_groups g
      ≡⟨ all_groups-names g (distinct-build ((n, c) ∷ ps) [] refl) ⟩ all_names (λ m. any_in m g) g
      ≡⟨ all_names-build (λ m. any_in m g) ((n, c) ∷ ps) [] ⟩
        (all (λ a. any_in a.0 g) ((n, c) ∷ ps) && true)
      ≡⟨ ap (λ (f : String → Bool). all (λ (a : String × Constraint). f a.0) ((n, c) ∷ ps) && true)
          (fun_ext (λ m. any_in-build_nil m ((n, c) ∷ ps))) ⟩
        (all (λ a. any (λ b. b.0 == a.0 && meets b.1) ((n, c) ∷ ps)) ((n, c) ∷ ps) && true)
      ≡⟨ and_true _ ⟩ all (λ a. any (λ b. b.0 == a.0 && meets b.1) ((n, c) ∷ ps)) ((n, c) ∷ ps) ∎
