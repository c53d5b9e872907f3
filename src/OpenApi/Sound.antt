-- ===== src/OpenApi/Sound.antt =====
-- What the recursion over the classes keeps: every reference leads to a schema that is there, or to that
-- of a class that is being described; and rounds are left.
use t3api.Base.{
  ℕ, ◌≤◌, String, true, ◌≡◌, refl, sym, ap, ◌∙◌, ◌⊎◌, inl, inr, List, [], ◌∷◌, map, All,
}
use mathlib.Core.Path.{subst}
use t3api.Base.Text.{in_array}
use t3api.Result.{Result, ok, thrown}
use t3api.Action.{Action, pure, continue, ◌>>=◌}
use t3api.OpenApi.Components.{
  Mode, TypeSchema, array_of, date_schema, number_schema, integer_schema, boolean_schema,
  string_schema, reference, PropertySchema, Docs, names, identifier,
}
use t3api.OpenApi.Rounds.{left}

module _ (K : String → Type 0) where
  -- the references of a schema are such
  abbrev pub Refers : TypeSchema → Type 0
  Refers (array_of t) = Refers t
  Refers (reference i) = K i
  Refers _ = Unit {0}

  abbrev pub PropertiesRefer : List PropertySchema → Type 0
  PropertiesRefer ps = All (λ p. Refers p.schema) ps

  abbrev pub SchemasRefer : List (String × List PropertySchema) → Type 0
  SchemasRefer xs = All (λ x. PropertiesRefer x.1) xs

module _ (K L : String → Type 0) (k : (i : String) → K i → L i) where
  pub Refers-later : (x : TypeSchema) → Refers K x → Refers L x
  Refers-later (array_of x) h = Refers-later x h
  Refers-later (reference i) h = k i h
  Refers-later date_schema h = tt
  Refers-later number_schema h = tt
  Refers-later integer_schema h = tt
  Refers-later boolean_schema h = tt
  Refers-later string_schema h = tt

  pub PropertiesRefer-later :
      (ps : List PropertySchema) → PropertiesRefer K ps → PropertiesRefer L ps
  PropertiesRefer-later [] h = tt
  PropertiesRefer-later (p ∷ ps) (h, hs) = (Refers-later p.schema h, PropertiesRefer-later ps hs)

  pub SchemasRefer-later :
      (xs : List (String × List PropertySchema)) → SchemasRefer K xs → SchemasRefer L xs
  SchemasRefer-later [] h = tt
  SchemasRefer-later (x ∷ xs) (h, hs) = (PropertiesRefer-later x.1 h, SchemasRefer-later xs hs)

module _ (m : Mode) where
  -- the identifier is that of a schema that is there, or of a class that is being described
  abbrev pub Known : Docs → String → Type 0
  Known s i =
      (in_array i (names s.schemas) ≡ true) ⊎ (in_array i (map (identifier m) s.processing) ≡ true)

  abbrev pub IsKnownType : Docs → TypeSchema → Type 0
  IsKnownType s t = Refers (Known s) t

  abbrev pub AreKnown : Docs → List PropertySchema → Type 0
  AreKnown s ps = PropertiesRefer (Known s) ps

  -- every reference in the schemas that are there is known
  abbrev pub Closed : Docs → Type 0
  Closed s = SchemasRefer (Known s) s.schemas

  -- schemas were only added, and the same classes are being described
  pub record Grew (s s' : Docs) : Type 0 where
    pub kept :
        (i : String) → in_array i (names s.schemas) ≡ true → in_array i (names s'.schemas) ≡ true
    pub same : s'.processing ≡ s.processing

  Grew-refl : (s : Docs) → Grew s s
  Grew-refl s = record { kept = λ i h. h; same = refl }

  Grew-trans : (s t u : Docs) → Grew s t → Grew t u → Grew s u
  Grew-trans s t u g h = record { kept = λ i k. h.kept i (g.kept i k); same = h.same ∙ g.same }

  pub Known-Grew : (s t : Docs) → Grew s t → (i : String) → Known s i → Known t i
  Known-Grew s t g i (inl h) = inl (g.kept i h)
  Known-Grew s t g i (inr h) = inr (ap (λ p. in_array i (map (identifier m) p)) g.same ∙ h)

  module _ (us : List String) (n : ℕ) where
    -- rounds are left for the classes that are not being described
    abbrev pub Room : Docs → Type 0
    Room s = left us s.processing ≤ n

    module _ {A : Type 0} (Q : A → Docs → Type 0) where
      -- what came of a call from a state
      abbrev pub After : Docs → Result A → Docs → Type 0
      After s (thrown e) s' = Unit {0}
      After s (ok a) s' = Grew s s' × Closed s' × Q a s'

      pub record Outcome (s : Docs) (out : Result A × Docs) : Type 0 where
        pub rounds : (out.1).exhausted ≡ s.exhausted
        pub after : After s out.0 out.1

      pub record Sound (call : Action Docs A) : Type 0 where
        pub at : (s : Docs) → Closed s → Room s → Outcome s (call s)

    module _ {A : Type 0} {Q : A → Docs → Type 0} where
      pub Outcome-pure : (a : A) (s : Docs) → Closed s → Q a s → Outcome Q s (pure a s)
      Outcome-pure a s c q = record { rounds = refl; after = (Grew-refl s, c, q) }

    module _ {B : Type 0} (P : B → Docs → Type 0) (s t : Docs) (x : t.exhausted ≡ s.exhausted)
        (g : Grew s t) where
      After-later : (b : Result B) (u : Docs) → After P t b u → After P s b u
      After-later (thrown e) u h = tt
      After-later (ok b) u (h, c, q) = (Grew-trans s t u g h, c, q)

      Outcome-later : (out : Result B × Docs) → Outcome P t out → Outcome P s out
      Outcome-later out o = record {
        rounds = o.rounds ∙ x;
        after = After-later out.0 out.1 o.after;
      }

    module _ {A B : Type 0} {Q : A → Docs → Type 0} {P : B → Docs → Type 0} where
      continue-Outcome :
          (x : Result A) (f : A → Action Docs B) (s t : Docs)
          → t.exhausted ≡ s.exhausted
          → After Q s x t
          → Room s
          → ((a : A) (u : Docs) → Grew s u → Closed u → Room u → Q a u → Outcome P u (f a u))
          → Outcome P s (continue x f t)
      continue-Outcome (thrown e) f s t x a r k = record { rounds = x; after = tt }
      continue-Outcome (ok a) f s t x (g, c, q) r k =
          Outcome-later P s t x g (f a t) (k a t g c (subst (λ p. left us p ≤ n) (sym g.same) r) q)

      pub Outcome-bind :
          (call : Action Docs A) (f : A → Action Docs B) (s : Docs)
          → Outcome Q s (call s)
          → Room s
          → ((a : A) (u : Docs) → Grew s u → Closed u → Room u → Q a u → Outcome P u (f a u))
          → Outcome P s ((call >>= f) s)
      Outcome-bind call f s o r k = continue-Outcome (call s).0 f s (call s).1 o.rounds o.after r k

      pub Sound-bind :
          (call : Action Docs A) (f : A → Action Docs B)
          → Sound Q call
          → ((a : A) (u : Docs) → Closed u → Room u → Q a u → Outcome P u (f a u))
          → Sound P (call >>= f)
      Sound-bind call f h k = record {
        at = λ s c r. Outcome-bind call f s (h.at s c r) r (λ a u g. k a u);
      }
