-- ===== src/Serializer/Generation/Hierarchy.antt =====
-- The ancestors of a class (Classes/Service/SerializerMetadataService.php, getClassHierarchy).
use t3api.Base.{
  ℕ, zero, suc, ◌≤◌, arith, String, Option, none, some, List, [], ◌∷◌, ◌≡◌, refl, inl, inr,
  Option-cases,
}
use t3api.Serializer.Generation.{Classes, collect_classes, reversed, get_class_hierarchy}

module _ (classes : Classes) where
  open classes use {parent, depth, depth-parent}

  -- The list of a class and all its ancestors, up to the one that has no parent.
  pub data Ancestry : String → List String → Type 0 where
    topmost : (c : String) → parent c ≡ none → Ancestry c (c ∷ [])
    extends :
        (c p : String) (cs : List String) → parent c ≡ some p → Ancestry p cs → Ancestry c (c ∷ cs)

  -- one round of the loop
  round :
      (n : ℕ) (c : String) (o : Option String)
      → parent c ≡ o
      → ((p : String) → o ≡ some p → Ancestry p (collect_classes classes n p))
      → Ancestry c (elim o [ none ↦ c ∷ [] | some p ↦ c ∷ collect_classes classes n p ])
  round n c none e rest = topmost c e
  round n c (some p) e rest = extends c p (collect_classes classes n p) e (rest p refl)

  below : (n : ℕ) (c p : String) → depth c ≤ suc n → parent c ≡ some p → depth p ≤ n
  below n c p b e = omega (arith, depth-parent c p e)

  no_parent : (c : String) → depth c ≤ 0 → parent c ≡ none
  no_parent c b = elim (Option-cases (parent c)) [ inl e ↦ e | inr (p, e) ↦ absurd (shallow p e) ]
    where
      shallow : (p : String) → parent c ≡ some p → ⊥
      shallow p e = omega (arith, depth-parent c p e)

  collect-Ancestry : (n : ℕ) (c : String) → depth c ≤ n → Ancestry c (collect_classes classes n c)
  unfolding collect_classes
  collect-Ancestry zero c b = topmost c (no_parent c b)
  collect-Ancestry (suc n) c b =
      round n c (parent c) refl (λ p e. collect-Ancestry n p (below n c p b e))

  -- The loop ends: it lists a class and all its ancestors up to the one without a parent, from that one
  -- down to the class.
  pub get_class_hierarchy-Ancestry :
      (c : String)
      → (cs : List String) × Ancestry c cs × (get_class_hierarchy classes c ≡ reversed cs)
  unfolding get_class_hierarchy
  get_class_hierarchy-Ancestry c =
      (collect_classes classes (depth c) c, collect-Ancestry (depth c) c (omega arith), refl)
