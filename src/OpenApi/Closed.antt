-- ===== src/OpenApi/Closed.antt =====
-- The schemas that are made for a class and for all that it refers to.
use t3api.OpenApi.Collect.{Sound-collect}
use t3api.Base.{
  ℕ, zero, suc, ◌≤◌, String, true, ◌||◌, ◌≡◌, refl, sym, ap, ◌∙◌, inl, inr, List, [], ◌∷◌, ◌++◌,
  ◌==◌, map, All-append, Bool-cases, eq_iff, eq_refl, arith,
}
use mathlib.Core.Path.{subst}
use t3api.Base.Text.{in_array}
use t3api.Result.{Result, ok, thrown}
use t3api.Action.{Action, continue, ◌>>=◌}
use t3api.OpenApi.Components.{
  metadata, write_mode, read_mode, ids, own, begin, Mode, set_components_schema, reference_by,
  finish, PropertySchema, PropertyMetadata, Classes, Docs, names, identifier, without, collect,
}
use t3api.OpenApi.Rounds.{left, left-cons, names-append, in_array-append, in_array-map}
use t3api.OpenApi.Sound.{
  Outcome-bind, Known, IsKnownType, AreKnown, Closed, PropertiesRefer-later, SchemasRefer-later,
  After, Outcome, Sound, Outcome-pure,
}

module _ (classes : Classes) (m : Mode) (us : List String)
    (listed : (c : String) → classes.class_exists c ≡ true → in_array c us ≡ true) where
  -- the end of the description of a class, with the classes that were being described before
  module _ (c : String) (ps : List PropertySchema) (s : Docs) (old : List String)
      (current : s.processing ≡ c ∷ old) where
    abbrev finished : Docs
    finished = (finish classes m c ps s).1

    names-finished :
        (i : String)
        → in_array i (names finished.schemas)
          ≡ (in_array i (names s.schemas) || in_array i (identifier m c ∷ []))
    names-finished i =
        ap (in_array i) (names-append s.schemas ((identifier m c, ps) ∷ []))
        ∙ in_array-append i (names s.schemas) (identifier m c ∷ [])

    processing-finished : finished.processing ≡ old
    processing-finished = ap (without c) current ∙ rw (eq_refl c) refl

    kept-finished :
        (i : String)
        → in_array i (names s.schemas) ≡ true
        → in_array i (names finished.schemas) ≡ true
    kept-finished i h = names-finished i ∙ rw h refl

    self-finished : in_array (identifier m c) (names finished.schemas) ≡ true
    self-finished = names-finished (identifier m c) ∙ ground (arith, eq_refl (identifier m c))

    Known-pending :
        (i : String) → in_array i (map (identifier m) (c ∷ old)) ≡ true → Known m finished i
    Known-pending i h = elim (Bool-cases (identifier m c == i)) [
      | inl e ↦ inl (
          subst (λ k. in_array k (names finished.schemas) ≡ true) ((eq_iff (identifier m c) i).0 e)
            self-finished)
      | inr e ↦
          inr
            (ap (λ p. in_array i (map (identifier m) p)) processing-finished ∙ sym (rw e refl) ∙ h)
    ]

    Known-finished : (i : String) → Known m s i → Known m finished i
    Known-finished i (inl h) = inl (kept-finished i h)
    Known-finished i (inr h) =
        Known-pending i (sym (ap (λ p. in_array i (map (identifier m) p)) current) ∙ h)

    Closed-finished : Closed m s → AreKnown m s ps → Closed m finished
    Closed-finished closed known =
        All-append (λ x. AreKnown m finished x.1) s.schemas ((identifier m c, ps) ∷ [])
          (SchemasRefer-later (Known m s) (Known m finished) Known-finished s.schemas closed)
          (PropertiesRefer-later (Known m s) (Known m finished) Known-finished ps known, tt)

  AreKnown-ids : (mode : Mode) (c : String) (s : Docs) → AreKnown m s (ids classes mode c)
  AreKnown-ids write_mode c s = tt
  AreKnown-ids read_mode c s = elim (Bool-cases (classes.is_api_resource c)) [
    | inl e ↦ rw e (tt, tt)
    | inr e ↦ rw e tt
  ]

  -- What a call for a class has done: its schema is there, or it is being described.
  abbrev Done : String → Unit {0} → Docs → Type 0
  Done c u s = Known m s (identifier m c)

  module _ (n : ℕ) (refer : String → Action Docs String)
      (refers : (c : String) → in_array c us ≡ true → Sound m us n (λ i s. Known m s i) (refer c))
      (c : String) (s : Docs) where
    abbrev begun : Docs
    begun = (begin classes c s).1

    Known-begun : (i : String) → Known m s i → Known m begun i
    Known-begun i (inl h) = inl h
    Known-begun i (inr h) = inr (ground (arith, h))

    Outcome-finish :
        (x : Result (List PropertySchema)) (v : Docs)
        → v.exhausted ≡ s.exhausted
        → After m us n (λ ps t. AreKnown m t ps) begun x v
        → Outcome m us
            (suc n)
            (Done c)
            s
            (continue x (λ ps. finish classes m c (ps ++ ids classes m c)) v)
    Outcome-finish (thrown e) v x h = record { rounds = x; after = tt }
    Outcome-finish (ok ps) v x (g, closed, known) =
        let all = ps ++ ids classes m c in
        let all_known =
          All-append (λ p. IsKnownType m v p.schema) ps (ids classes m c) known
            (AreKnown-ids m c v) in
        record {
          rounds = x;
          after = (
            record {
              kept = λ i h. kept-finished c all v s.processing g.same i (g.kept i h);
              same = processing-finished c all v s.processing g.same;
            },
            Closed-finished c all v s.processing g.same closed all_known,
            inl (self-finished c all v s.processing g.same),
          );
        }

    Outcome-metadata :
        (r : Result (List PropertyMetadata))
        → Closed m s
        → left us (c ∷ s.processing) ≤ n
        → Outcome m us (suc n) (Done c) s (
            continue r
              (λ ps. collect classes refer m (own classes c ps) >>= λ properties.
                finish classes m c (properties ++ ids classes m c))
              begun)
    Outcome-metadata (thrown e) closed room = record { rounds = refl; after = tt }
    Outcome-metadata (ok ps) closed room =
        let o =
          (Sound-collect classes m us listed n refer refers (own classes c ps)).at begun
            (SchemasRefer-later (Known m s) (Known m begun) Known-begun s.schemas closed) room in
        Outcome-finish (collect classes refer m (own classes c ps) begun).0
          (collect classes refer m (own classes c ps) begun).1 o.rounds o.after

  Done-processing :
      (c : String) (s : Docs) → in_array c s.processing ≡ true → Known m s (identifier m c)
  Done-processing c s e = inr (in_array-map (identifier m) c s.processing e)

  pub Sound-reference :
      (n : ℕ) (set : String → Action Docs (Unit {0})) (c : String)
      → Sound m us n (Done c) (set c)
      → Sound m us n (λ i s. Known m s i) (reference_by classes set m c)
  Sound-reference n set c h = record {
    at = λ s k r. elim (Bool-cases (in_array (identifier m c) (names s.schemas))) [
      | inl e ↦ rw e (Outcome-pure m us n (identifier m c) s k (inl e))
      | inr e ↦ rw e (
          Outcome-bind m us n (set c) _ s (h.at s k r) r
            λ u t g d room q. Outcome-pure m us n (identifier m c) t d q)
    ];
  }

  -- With as many rounds as classes that are not being described, the recursion does its work.
  pub Sound-set :
      (n : ℕ) (c : String)
      → in_array c us ≡ true
      → Sound m us n (Done c) (set_components_schema classes n m c)
  unfolding set_components_schema
  Sound-set zero c here = record {
    at = λ s k r. elim (Bool-cases (in_array c s.processing)) [
      | inl e ↦ rw e (Outcome-pure m us zero tt s k (Done-processing c s e))
      | inr e ↦ absurd (omega (arith, left-cons us s.processing c here e, r))
    ];
  }
  Sound-set (suc n) c here = record {
    at = λ s k r. elim (Bool-cases (in_array c s.processing)) [
      | inl e ↦ rw e (Outcome-pure m us (suc n) tt s k (Done-processing c s e))
      | inr e ↦ rw e (
          Outcome-metadata n (reference_by classes (set_components_schema classes n m) m)
            (λ d there.
              Sound-reference n (set_components_schema classes n m) d (Sound-set n d there))
            c s (metadata classes c) k (omega (arith, left-cons us s.processing c here e, r)))
    ];
  }
