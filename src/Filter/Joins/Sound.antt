-- ===== src/Filter/Joins/Sound.antt =====
-- The joins for a nested property, step by step (Classes/Filter/AbstractFilter.php).
use mathlib.Core.Path.{subst}
use t3api.Base.{
  List, [], ◌∷◌, ◌∷◌, none, some, List, Option, last, but_last, ℕ, suc, ◌<◌, arith, String, All,
  ◌≡◌, refl,
}
use t3api.Result.{Result, ok-injective}
use t3api.Action.{continue, lift, pure, ◌>>=◌, ◌>>◌}
use t3api.Filter.Joins.{
  need_column_map, or_empty, nested_or_throw, explode_dots, ok, thrown, join_associations,
  add_joins_for_nested_property, Mapping, Joins, Condition, ColumnMap, Relation, no_relation,
  has_one, has_many, belongs_to_many, has_and_belongs_to_many, alias_of, join, join_condition,
  add_join,
}
use t3api.Filter.Joins.Aliases.{
  Kept-continue, Kept-pure, IsSound, IsKnown, IsOther, All-IsOther, Kept, Kept-throw, IsKnown-later,
  IsKnown-now, IsSound-join, IsSound-called, called,
}

no_loop : (n : ℕ) → suc n ≡ n → ⊥
no_loop n e = omega arith

module _ (mapping : Mapping) where
  -- the alias of a join is known where the join was made
  Known : String → Joins → Type 0
  Known a s = IsKnown mapping s a

  -- a join of the alias that the call `n` has made
  Kept-join :
      (parent table : String) (n : ℕ) (t : String) (c : Condition) (s : Joins)
      → IsSound mapping s
      → IsKnown mapping s parent
      → n < s.calls
      → All (IsOther mapping n) s.joins
      → Kept mapping Known s
          ((join parent table (alias_of mapping n t) c >> pure (alias_of mapping n t)) s)
  unfolding Known
  Kept-join parent table n t c s h known l others = record {
    sound = IsSound-join mapping s parent table n t c h known l others;
    grows = λ a k. IsKnown-later mapping a parent table (alias_of mapping n t) c s k;
    gives = λ x e.
        subst (λ a. IsKnown mapping ((join parent table (alias_of mapping n t) c) s).1 a)
          (ok-injective e) (IsKnown-now mapping parent table (alias_of mapping n t) c s);
  }

  Kept-called :
      (s : Joins) (out : Result String × Joins)
      → Kept mapping Known (called mapping s) out
      → Kept mapping Known s out
  Kept-called s out k = record { sound = k.sound; grows = k.grows; gives = k.gives }

  -- the relation of many to many, with the table between
  Kept-two :
      (parent between table : String) (c d : Condition) (s : Joins)
      → IsSound mapping s
      → IsKnown mapping s parent
      → Kept mapping Known s (
          (join parent between (alias_of mapping (suc s.calls) "_mm") c
              >> (join parent table (alias_of mapping s.calls "") d
                  >> pure (alias_of mapping s.calls "")))
            (called mapping (called mapping s)))
  unfolding Known IsOther
  Kept-two parent between table c d s h known =
      let once = IsSound-called mapping s h in
      let twice = IsSound-called mapping (called mapping s) once in
      let s₂ = called mapping (called mapping s) in
      let s₃ = (join parent between (alias_of mapping (suc s.calls) "_mm") c s₂).1 in
      let middle =
        IsSound-join mapping s₂ parent between (suc s.calls) "_mm" c twice known (omega arith)
          (All-IsOther mapping (suc s.calls) s.joins once.1) in
      let k =
        Kept-join parent table s.calls "" d s₃ middle
          (IsKnown-later mapping parent parent between (alias_of mapping (suc s.calls) "_mm") c s₂
            known)
          (omega arith)
          (
            (suc s.calls, "_mm", refl, λ e. no_loop s.calls e),
            All-IsOther mapping s.calls s.joins h.1,
          ) in
      record {
        sound = k.sound;
        grows = λ a e.
            k.grows a (
              IsKnown-later mapping a parent between (alias_of mapping (suc s.calls) "_mm") c s₂ e);
        gives = k.gives;
      }

  -- a relation to one object or to many, with the key in one of the two tables
  Kept-one :
      (parent table : String) (c : Condition) (s : Joins)
      → IsSound mapping s
      → IsKnown mapping s parent
      → Kept mapping Known s (
          (join parent table (alias_of mapping s.calls "") c >> pure (alias_of mapping s.calls ""))
            (called mapping s))
  Kept-one parent table c s h known = Kept-called s _ (
      Kept-join parent table s.calls "" c (called mapping s) (IsSound-called mapping s h) known
        (omega arith) (All-IsOther mapping s.calls s.joins h.1))

  Kept-relation :
      (r : Relation) (parent : String) (m : ColumnMap) (s : Joins)
      → IsSound mapping s
      → IsKnown mapping s parent
      → Kept mapping Known s (
          (join_condition mapping r parent (alias_of mapping s.calls "") m >>= λ c.
          join parent m.child_table_name (alias_of mapping s.calls "") c
          >> pure (alias_of mapping s.calls ""))
            (called mapping s))
  unfolding join_condition Known
  Kept-relation has_one parent m s h known = Kept-one parent m.child_table_name _ s h known
  Kept-relation has_many parent m s h known = Kept-one parent m.child_table_name _ s h known
  Kept-relation has_and_belongs_to_many parent m s h known =
      Kept-two parent m.relation_table_name m.child_table_name _ _ s h known
  Kept-relation belongs_to_many parent m s h known =
      Kept-called s _ (Kept-throw mapping _ (called mapping s) (IsSound-called mapping s h))
  Kept-relation no_relation parent m s h known =
      Kept-called s _ (Kept-throw mapping _ (called mapping s) (IsSound-called mapping s h))

  Kept-add_join :
      (parent : String) (m : ColumnMap) (s : Joins)
      → IsSound mapping s
      → IsKnown mapping s parent
      → Kept mapping Known s (add_join mapping parent m s)
  unfolding add_join
  Kept-add_join parent m s h known = Kept-relation m.type_of_relation parent m s h known

  -- What is returned is an alias that is known, if there is one.
  KnownAt : Option String → Joins → Type 0
  KnownAt none s = Unit
  KnownAt (some a) s = IsKnown mapping s a

  True : {A : Type 0} → A → Joins → Type 0
  True a s = Unit

  Kept-lift :
      {A : Type 0} (r : Result A) (s : Joins) → IsSound mapping s → Kept mapping True s (lift r s)
  unfolding True
  Kept-lift r s h = record { sound = h; grows = λ a k. k; gives = λ x e. tt }

  Kept-associations :
      (path : List String) (class_name parent : String) (at : Option String) (s : Joins)
      → IsSound mapping s
      → IsKnown mapping s parent
      → KnownAt at s
      → Kept mapping KnownAt s (join_associations mapping path class_name parent at s)
  unfolding join_associations KnownAt Known
  Kept-associations [] class_name parent at s h known k = Kept-pure mapping at s h k
  Kept-associations (a ∷ rest) class_name parent at s h known k =
      let types = mapping.get_type class_name a in
      let found = need_column_map (mapping.column_map class_name a) in
      Kept-continue mapping s
        (λ type. lift found >>= λ m. add_join mapping parent m >>= λ alias.
          join_associations mapping rest type alias (some alias))
        (lift types s) (Kept-lift types s h)
        (λ type h₁ g₁ u₁.
          Kept-continue mapping s
            (λ m. add_join mapping parent m >>= λ alias.
              join_associations mapping rest type alias (some alias))
            (lift found s) (Kept-lift found s h₁)
            (λ m h₂ g₂ u₂.
              Kept-continue mapping s
                (λ alias. join_associations mapping rest type alias (some alias))
                (add_join mapping parent m s) (Kept-add_join parent m s h₂ known)
                (λ alias h₃ g₃ k₃.
                  Kept-associations rest type alias (some alias) (add_join mapping parent m s).1 h₃
                    k₃ k₃)))

  -- The alias that is returned for the field is known.
  abbrev pub HasKnown : Result (String × String) → Joins → Type 0
  HasKnown (thrown e) s = Unit
  HasKnown (ok (alias, field)) s = IsKnown mapping s alias

  HasKnown-nested :
      (r : Result (Option String)) (field : String) (s : Joins)
      → ((at : Option String) → r ≡ ok at → KnownAt at s)
      → HasKnown (continue r (λ at. lift (nested_or_throw at field)) s).0 s
  unfolding KnownAt
  HasKnown-nested (thrown e) field s k = tt
  HasKnown-nested (ok none) field s k = tt
  HasKnown-nested (ok (some a)) field s k = k (some a) refl

  after-nested :
      (r : Result (Option String)) (field : String) (s : Joins)
      → (continue r (λ at. lift (nested_or_throw at field)) s).1 ≡ s
  after-nested (thrown e) field s = refl
  after-nested (ok at) field s = refl

  -- Whatever the mapping of the classes, and whether or not it throws, adding the joins for a nested property
  -- keeps a statement sound: each join has an alias made of the result of a call of uniqid from which no
  -- earlier join has its alias, and starts at the root or at an earlier join; the alias that is returned for the field is the root or that of a join.
  pub add_joins-IsSound :
      (property class_name : String) (s : Joins)
      → IsSound mapping s
      → IsSound mapping (add_joins_for_nested_property mapping property "o" class_name s).1
        × HasKnown
            (add_joins_for_nested_property mapping property "o" class_name s).0
            (add_joins_for_nested_property mapping property "o" class_name s).1
  unfolding add_joins_for_nested_property KnownAt
  add_joins-IsSound property class_name s h =
      let k =
        Kept-associations (but_last (explode_dots property)) class_name "o" none s h refl tt in
      let out =
        join_associations mapping (but_last (explode_dots property)) class_name "o" none s in
      rw (after-nested out.0 (or_empty (last (explode_dots property))) out.1)
        (k.sound, HasKnown-nested out.0 _ out.1 k.gives)
