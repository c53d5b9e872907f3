-- ===== src/OpenApi/Resolved.antt =====
-- The references of a whole documentation.
use t3api.Base.{
  ℕ, ◌≤◌, String, true, false, ◌||◌, ◌≡◌, refl, sym, ap, ◌∙◌, inl, inr, List, [], ◌∷◌, ◌++◌, map,
  All, All-append, Bool-cases, length, arith,
}
use t3api.Base.Text.{in_array}
use t3api.Result.{Result, ok, thrown}
use t3api.Action.{Action, pure, continue, ◌>>=◌}
use t3api.Domain.Operation.{Operation, is_method}
use t3api.OpenApi.Components.{
  Mode, read_mode, write_mode, Classes, Docs, no_docs, names, identifier,
  get_components_schema_reference, set_components_schema, reference_operation, reference_operations,
}
use t3api.OpenApi.Rounds.{left}
use t3api.OpenApi.Sound.{Known, Closed, SchemasRefer, SchemasRefer-later, After}
use t3api.OpenApi.Closed.{Sound-set, Sound-reference}

-- the identifier is that of a schema that is there
abbrev pub Resolved : Docs → String → Type 0
Resolved s i = in_array i (names s.schemas) ≡ true

nowhere : false ≡ true → ⊥
nowhere e = cc

-- no class is being described, and every reference leads to a schema
pub record Complete (s : Docs) : Type 0 where
  pub idle : s.processing ≡ []
  pub resolved : SchemasRefer (Resolved s) s.schemas

module _ (m : Mode) (s : Docs) where
  Resolved-Known : s.processing ≡ [] → (i : String) → Known m s i → Resolved s i
  Resolved-Known e i (inl h) = h
  Resolved-Known e i (inr h) =
      absurd (nowhere (sym (ap (λ p. in_array i (map (identifier m) p)) e) ∙ h))

  Complete-Closed : s.processing ≡ [] → Closed m s → Complete s
  Complete-Closed e c = record {
    idle = e;
    resolved = SchemasRefer-later (Known m s) (Resolved s) (Resolved-Known e) s.schemas c;
  }

  Closed-Complete : Complete s → Closed m s
  Closed-Complete c =
      SchemasRefer-later (Resolved s) (Known m s) (λ i h. inl h) s.schemas c.resolved

-- what was there before is there still
abbrev Kept : Docs → Docs → Type 0
Kept s t = (i : String) → Resolved s i → Resolved t i

module _ {A : Type 0} (Q : A → Docs → Type 0) where
  abbrev AfterTop : Docs → Result A → Docs → Type 0
  AfterTop s (thrown e) t = Unit {0}
  AfterTop s (ok a) t = Complete t × Kept s t × Q a t

  -- what came of a call from a state in which no class is being described
  record Fine (s : Docs) (out : Result A × Docs) : Type 0 where
    rounds : (out.1).exhausted ≡ s.exhausted
    after : AfterTop s out.0 out.1

  AfterTop-later : (s t u : Docs) (x : Result A) → Kept s t → AfterTop t x u → AfterTop s x u
  AfterTop-later s t u (thrown e) k h = tt
  AfterTop-later s t u (ok a) k (c, j, q) = (c, λ i h. j i (k i h), q)

  Fine-pure : (a : A) (s : Docs) → Complete s → Q a s → Fine s (pure a s)
  Fine-pure a s c q = record { rounds = refl; after = (c, λ i h. h, q) }

module _ {A B : Type 0} {Q : A → Docs → Type 0} {P : B → Docs → Type 0} where
  continue-Fine :
      (x : Result A) (f : A → Action Docs B) (s t : Docs)
      → t.exhausted ≡ s.exhausted
      → AfterTop Q s x t
      → ((a : A) (u : Docs) → Complete u → Kept s u → Q a u → Fine P u (f a u))
      → Fine P s (continue x f t)
  continue-Fine (thrown e) f s t x h k = record { rounds = x; after = tt }
  continue-Fine (ok a) f s t x (c, j, q) k =
      let o = k a t c j q in
      record { rounds = o.rounds ∙ x; after = AfterTop-later P s t (f a t).1 (f a t).0 j o.after }

  Fine-bind :
      (call : Action Docs A) (f : A → Action Docs B) (s : Docs)
      → Fine Q s (call s)
      → ((a : A) (u : Docs) → Complete u → Kept s u → Q a u → Fine P u (f a u))
      → Fine P s ((call >>= f) s)
  Fine-bind call f s o k = continue-Fine (call s).0 f s (call s).1 o.rounds o.after k

left_all : (us : List String) → left us [] ≡ length us
left_all [] = refl
left_all (u ∷ us) = omega (arith, left_all us)

abbrev pub AllResolved : List String → Docs → Type 0
AllResolved is s = All (Resolved s) is

AllResolved-later : (is : List String) (s t : Docs) → Kept s t → AllResolved is s → AllResolved is t
AllResolved-later [] s t k h = tt
AllResolved-later (i ∷ is) s t k (h, hs) = (k i h, AllResolved-later is s t k hs)

-- every reference of the operations, and of the schemas, leads to a schema
abbrev pub Documents : Result (List String) × Docs → Type 0
Documents (thrown e, s) = Unit {0}
Documents (ok is, s) = AllResolved is s × SchemasRefer (Resolved s) s.schemas

module _ (classes : Classes) (us : List String)
    (listed : (c : String) → classes.class_exists c ≡ true → in_array c us ≡ true) (n : ℕ)
    (enough : length us ≤ n) where
  Room-idle : (s : Docs) → s.processing ≡ [] → left us s.processing ≤ n
  Room-idle s e = rw e (omega (arith, left_all us))

  module _ (m : Mode) (s : Docs) (c : Complete s) where
    After-Complete :
        (x : Result String) (t : Docs)
        → After m us n (λ i u. Known m u i) s x t
        → AfterTop (λ i u. Resolved u i) s x t
    After-Complete (thrown e) t h = tt
    After-Complete (ok i) t (g, closed, known) =
        let idle = g.same ∙ c.idle in
        (Complete-Closed m t idle closed, g.kept, Resolved-Known m t idle i known)

    Fine-reference :
        (name : String)
        → in_array name us ≡ true
        → Fine (λ i u. Resolved u i) s (get_components_schema_reference classes n m name s)
    unfolding get_components_schema_reference
    Fine-reference name here =
        let o =
          (Sound-reference classes m us listed n (set_components_schema classes n m) name
              (Sound-set classes m us listed n name here)).at
            s (Closed-Complete m s c) (Room-idle s c.idle) in
        record { rounds = o.rounds; after = After-Complete _ _ o.after }

  Fine-operation :
      (o : Operation) (s : Docs)
      → Complete s
      → in_array o.entity us ≡ true
      → Fine AllResolved s (reference_operation classes n o s)
  unfolding reference_operation
  Fine-operation o s c here =
      Fine-bind (get_components_schema_reference classes n read_mode o.entity) _ s
        (Fine-reference read_mode s c o.entity here)
        λ i u d k q. elim (Bool-cases (is_method "GET" o || is_method "DELETE" o)) [
          | inl e ↦ rw e (Fine-pure AllResolved (i ∷ []) u d (q, tt))
          | inr e ↦ rw e (
              Fine-bind (get_components_schema_reference classes n write_mode o.entity) _ u
                (Fine-reference write_mode u d o.entity here)
                λ j v b l r. Fine-pure AllResolved (i ∷ j ∷ []) v b (l i q, (r, tt)))
        ]

  Fine-operations :
      (os : List Operation) (s : Docs)
      → Complete s
      → All (λ o. in_array o.entity us ≡ true) os
      → Fine AllResolved s (reference_operations classes n os s)
  unfolding reference_operations
  Fine-operations [] s c h = Fine-pure AllResolved [] s c tt
  Fine-operations (o ∷ os) s c (h, hs) =
      Fine-bind (reference_operation classes n o) _ s (Fine-operation o s c h) λ is u d k q.
        Fine-bind (reference_operations classes n os) _ u (Fine-operations os u d hs) λ js v b l r.
          Fine-pure AllResolved (is ++ js) v b
            (All-append (Resolved v) is js (AllResolved-later is u v l q) r)

  Documents-Fine :
      (out : Result (List String) × Docs) → Fine AllResolved no_docs out → Documents out
  Documents-Fine (thrown e, s) f = tt
  Documents-Fine (ok is, s) f = let (c, k, q) = f.after in (q, c.resolved)

  -- However the classes refer to each other, in cycles too: the recursion over them ends, with no more rounds
  -- than there are classes; and unless the metadata of a class fails, each reference, of an operation
  -- or of a schema, leads to a schema that is there.
  pub reference_operations_resolved :
      (os : List Operation)
      → All (λ o. in_array o.entity us ≡ true) os
      → ((reference_operations classes n os no_docs).1.exhausted ≡ false)
        × Documents (reference_operations classes n os no_docs)
  reference_operations_resolved os h =
      let f = Fine-operations os no_docs (record { idle = refl; resolved = tt }) h in
      (f.rounds, Documents-Fine (reference_operations classes n os no_docs) f)
