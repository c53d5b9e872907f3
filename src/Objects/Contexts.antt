-- ===== src/Objects/Contexts.antt =====
-- Classes/Serializer/ContextBuilder and Classes/Serializer/Construction, and the listener of
-- Classes/EventListener/AddHydraCollectionResponseSerializationGroupEventListener.php.
use t3api.Base.{
  ℕ, String, Bool, ◌&&◌, ◌≡◌, refl, Option, none, some, List, [], ◌∷◌, ◌++◌, ◌==◌, eqb,
  if◌then◌else◌, map, Bool-cases, inl, inr, eq_refl,
}
use t3api.Exception.{runtime, type_error}
use t3api.Result.{Result, ok, thrown}
use t3api.Php.{Value, null, Fields}
use t3api.Domain.Operation.{Operation, is_method}
use t3api.Handler.Support.{is_collection}
use t3api.Runtime.{Ref}

-- the value of an attribute: one of the annotation, or an object
pub data Attribute : Type 0 where
  annotated : Value → Attribute
  object : Ref → Attribute

abbrev pub Attributes : Type 0
Attributes = List (String × Attribute)

-- `$attributes[$name] = $value`
unfoldable pub set_attribute : String → Attribute → Attributes → Attributes
set_attribute name v [] = (name, v) ∷ []
set_attribute name v ((k, u) ∷ rest) =
    let others = set_attribute name v rest in if k == name then (k, v) ∷ rest else (k, u) ∷ others

unfoldable pub get_attribute : String → Attributes → Option Attribute
get_attribute name [] = none
get_attribute name ((k, v) ∷ rest) = if k == name then some v else get_attribute name rest

abbrev annotated_fields : Fields → Attributes
annotated_fields fields = map (λ f. (f.0, annotated f.1)) fields

abbrev or_fields : Option Fields → Fields → Fields
or_fields none fields = fields
or_fields (some given) fields = given

-- `SerializationContextBuilder::createFromOperation`, before the event
unfoldable pub serialization_attributes : Operation → Attributes
serialization_attributes o = annotated_fields (or_fields o.normalization_context [])

abbrev pub with_target : Option Ref → Attributes → Attributes
with_target none attributes = attributes
with_target (some x) attributes = set_attribute "target" (object x) attributes

-- `DeserializationContextBuilder::createFromOperation`, before the event
unfoldable pub deserialization_attributes : Operation → Option Ref → Attributes
unfolding set_attribute
deserialization_attributes o target =
    with_target target (
      annotated_fields (or_fields o.denormalization_context (or_fields o.normalization_context [])))

-- What the listener adds to the groups of a context, which has some or not; `hydra` says that the
-- configured response is the one of Hydra or a subclass.
unfoldable pub collection_groups :
    (hydra : Bool) → Operation → Option (List String) → Option (List String)
collection_groups hydra o none = none
collection_groups hydra o (some groups) =
    if hydra && is_collection o && is_method "GET" o
    then some (groups ++ ("__hydra_collection_response" ∷ []))
    else some groups

-- the constructors
pub data Constructor : Type 0 where
  initialized_object : Constructor
  extbase_object : Constructor

-- those of `ext_localconf.php`
abbrev pub registered_constructors : List Constructor
registered_constructors = initialized_object ∷ extbase_object ∷ []

-- `InitializedObjectConstructor::construct`: an object or null, as its type says
abbrev pub target_at : Option Attribute → Result (Option Ref)
target_at none = ok none
target_at (some (object x)) = ok (some x)
target_at (some (annotated null)) = ok none
target_at (some (annotated _)) = thrown type_error

abbrev found : Result Ref → Result (Option Ref)
found (ok x) = ok (some x)
found (thrown e) = thrown e

abbrev pub constructed_or : Result (Option Ref) → Result Ref → Result Ref
constructed_or (ok none) next = next
constructed_or (ok (some x)) next = ok x
constructed_or (thrown e) next = thrown e

constructed_or-found : (r next : Result Ref) → constructed_or (found r) next ≡ r
constructed_or-found (ok x) next = refl
constructed_or-found (thrown e) next = refl

module _ (make_instance : String → Result Ref) where
  abbrev pub construct_with : Constructor → Attributes → ℕ → String → Result (Option Ref)
  construct_with initialized_object attributes depth class_name =
      if eqb depth 1 then target_at (get_attribute "target" attributes) else ok none
  construct_with extbase_object attributes depth class_name = found (make_instance class_name)

  -- `ObjectConstructorChain::construct`
  unfoldable pub construct : List Constructor → Attributes → ℕ → String → Result Ref
  unfolding get_attribute
  construct [] attributes depth class_name = thrown (runtime 1577822761813)
  construct (k ∷ ks) attributes depth class_name =
      constructed_or (construct_with k attributes depth class_name)
        (construct ks attributes depth class_name)

  get-set_attribute :
      (name : String) (v : Attribute) (attributes : Attributes)
      → get_attribute name (set_attribute name v attributes) ≡ some v
  unfolding get_attribute set_attribute
  get-set_attribute name v [] = rw (eq_refl name) refl
  get-set_attribute name v ((k, u) ∷ rest) = elim (Bool-cases (k == name)) [
    | inl e ↦ rw (e, e) refl
    | inr e ↦ rw (e, e) (get-set_attribute name v rest)
  ]

  -- What an operation reads into an object, it reads into that object at the top of the data, and at every
  -- other depth into a new one, whatever the contexts of the annotation say.
  construct-deserialization_attributes :
      (o : Operation) (x : Ref) (depth : ℕ) (class_name : String)
      → construct registered_constructors (deserialization_attributes o (some x)) depth class_name
        ≡ (if eqb depth 1 then ok x else make_instance class_name)
  unfolding construct deserialization_attributes
  construct-deserialization_attributes o x depth class_name = elim (Bool-cases (eqb depth 1)) [
    | inl e ↦ rw (e, get-set_attribute) refl
    | inr e ↦ rw (e, eqb) (constructed_or-found (make_instance class_name) _)
  ]
