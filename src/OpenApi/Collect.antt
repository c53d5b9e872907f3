-- ===== src/OpenApi/Collect.antt =====
-- The schemas of the properties of a class.
use t3api.Base.{
  ℕ, String, true, ◌≡◌, refl, inl, inr, Option, none, some, List, [], ◌∷◌, Bool-cases, arith,
}
use t3api.Base.Text.{in_array}
use t3api.Action.{Action}
use t3api.OpenApi.Components.{
  is_filled, basic_schema, Mode, TypeSchema, array_of, reference, PropertyMetadata, Classes, Docs,
  Form, dated, numbered, referred, basic, form_of, schema_of_form, schema_of_type,
  schema_of_element, element_of, schema_of_property, collect,
}
use t3api.OpenApi.Sound.{
  Outcome-bind, Known, IsKnownType, AreKnown, Known-Grew, Refers-later, Sound, Outcome-pure,
  Sound-bind,
}

module _ (classes : Classes) (m : Mode) (us : List String)
    (listed : (c : String) → classes.class_exists c ≡ true → in_array c us ≡ true) where
  referred-exists :
      (type : String) → form_of classes m type ≡ referred → classes.class_exists type ≡ true
  referred-exists type e = ground arith

  module _ (n : ℕ) (refer : String → Action Docs String)
      (refers : (c : String)
        → in_array c us ≡ true
        → Sound m us n (λ i s. Known m s i) (refer c)) where
    abbrev TypeDone : TypeSchema → Docs → Type 0
    TypeDone t s = IsKnownType m s t

    IsKnown-basic : (s : Docs) (type : String) → IsKnownType m s (basic_schema type)
    IsKnown-basic s type = ground arith

    Sound-form :
        (f : Form) (type : String)
        → form_of classes m type ≡ f
        → Sound m us n TypeDone (schema_of_form classes refer m f type)
    Sound-form dated type e = record { at = λ s c r. Outcome-pure m us n _ s c tt }
    Sound-form numbered type e = record { at = λ s c r. Outcome-pure m us n _ s c tt }
    Sound-form basic type e = record {
      at = λ s c r. Outcome-pure m us n _ s c (IsKnown-basic s type);
    }
    Sound-form referred type e =
        Sound-bind m us n (refer type) _ (refers type (listed type (referred-exists type e)))
          λ i u c r q. Outcome-pure m us n (reference i) u c q

    Sound-type : (type : String) → Sound m us n TypeDone (schema_of_type classes refer m type)
    Sound-type type = Sound-form (form_of classes m type) type refl

    Sound-element :
        (e : Option String) (type : String)
        → Sound m us n TypeDone (schema_of_element classes refer m e type)
    Sound-element none type = Sound-type type
    Sound-element (some e) type = elim (Bool-cases (is_filled e)) [
      | inl k ↦ rw k (
          Sound-bind m us n (schema_of_type classes refer m e) _ (Sound-type e)
            λ t u c r q. Outcome-pure m us n (array_of t) u c q)
      | inr k ↦ rw k (Sound-type type)
    ]

    Sound-property :
        (p : PropertyMetadata)
        → Sound m us n (λ x s. IsKnownType m s x.schema) (schema_of_property classes refer m p)
    Sound-property p =
        Sound-bind m us n
          (schema_of_element classes refer m (element_of classes refer m p) p.type_name) _
          (Sound-element (element_of classes refer m p) p.type_name)
          λ t u c r q.
            Outcome-pure m us n
              (record { name = p.serialized_name; read_only = some p.read_only; schema = t }) u c q

    pub Sound-collect :
        (ps : List PropertyMetadata)
        → Sound m us n (λ xs s. AreKnown m s xs) (collect classes refer m ps)
    Sound-collect [] = record { at = λ s c r. Outcome-pure m us n [] s c tt }
    Sound-collect (p ∷ ps) =
        Sound-bind m us n (schema_of_property classes refer m p) _ (Sound-property p) λ x u c r q.
          Outcome-bind m us n (collect classes refer m ps) _ u ((Sound-collect ps).at u c r) r
            λ xs v g d k qs.
              Outcome-pure m us n (x ∷ xs) v d
                (Refers-later (Known m u) (Known m v) (Known-Grew m u v g) x.schema q, qs)
