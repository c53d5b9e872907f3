-- ===== src/Objects/Cascade.antt =====
-- What the handler of related objects hands over to the serializer, and what it refuses.
use t3api.Base.{String, Bool, true, false, ◌&&◌, ◌==◌, ◌≡◌, refl, Option, none, some}
use t3api.Exception.{runtime}
use t3api.Result.{ok, thrown, >>=-returned, ok-injective}
use mathlib.Core.Path.{subst}
use t3api.Php.{null, bool, int, str, Value, arr, Entries, fields, get, to_int}
use t3api.Php.Numeric.{is_numeric}
use t3api.Runtime.{Ref}
use t3api.Objects.{
  into_object, transport_type, is_filled, by_uid, from_value, through_property,
  process_cascade_update, process_cascade_persistence, for_target, into, if_allowed, update_if,
  update_found, in_property_of, Objects, Property, PropertyMetadata, TypeName, Context, Transported,
  inserted, updated, in_property, allows_cascade_persistence, is_object_in_context_scope,
  deserialize_object,
}

module _ (objects : Objects) where
  open objects use {
    get_object_by_identifier, get_uid, get_property, is_storage_class, is_domain_class,
  }

  -- the property that is read allows that its objects are persisted with their parent
  abbrev pub AllowsCascade : PropertyMetadata → Type 0
  AllowsCascade p = allows_cascade_persistence objects p.class_name p.name ≡ ok true

  -- The object is in the property of the target: in its storage, or with the same uid as its object.
  abbrev pub InScope : Context → PropertyMetadata → Ref → Type 0
  InScope context p x =
      (parent : Ref) × (v : Property) × (context.target ≡ some parent)
      × (get_property parent p.name ≡ ok v)
      × (in_property objects (is_storage_class p.type_name) v x ≡ ok true)

  -- What data may become: nothing new is made and nothing is written but through a property that
  -- allows it, and what is written into is an object of that class which the property already holds.
  abbrev pub Permitted : Context → Transported → Type 0
  Permitted context (inserted es type) =
      (p : PropertyMetadata) × (context.property_metadata ≡ some p)
      × AllowsCascade p
      × (get "uid" (fields es) ≡ none)
  Permitted context (updated x es type) =
      (p : PropertyMetadata) × (uid : Value) × (context.property_metadata ≡ some p)
      × AllowsCascade p
      × (get "uid" (fields es) ≡ some uid)
      × (get_object_by_identifier (to_int uid) type ≡ some x)
      × InScope context p x
  Permitted context _ = Unit {0}

  InScope-target :
      (context : Context) (p : PropertyMetadata) (x : Ref) (target : Option Ref)
      → context.target ≡ target
      → in_property_of objects target p x ≡ ok true
      → InScope context p x
  InScope-target context p x none e h = cc
  InScope-target context p x (some parent) e h =
      let (v, k, q) = >>=-returned _ (get_property parent p.name) true h in (parent, v, e, k, q)

  module _ (context : Context) (out : Transported) where
    module _ (p : PropertyMetadata) (es : Entries) (type : String)
        (m : context.property_metadata ≡ some p) (a : AllowsCascade p) where
      Permitted-decided :
          (uid : Value) (x : Ref) (b : Bool)
          → get "uid" (fields es) ≡ some uid
          → get_object_by_identifier (to_int uid) type ≡ some x
          → is_object_in_context_scope objects context p x ≡ ok b
          → update_if objects x es type b ≡ ok out
          → Permitted context out
      unfolding is_object_in_context_scope
      Permitted-decided uid x false g f k h = cc
      Permitted-decided uid x true g f k h =
          subst (Permitted context) (ok-injective h)
            (p, uid, m, a, g, f, InScope-target context p x context.target refl k)

      Permitted-found :
          (uid : Value) (found : Option Ref)
          → get "uid" (fields es) ≡ some uid
          → get_object_by_identifier (to_int uid) type ≡ found
          → update_found objects found type p es context ≡ ok out
          → Permitted context out
      Permitted-found uid none g f h = cc
      Permitted-found uid (some x) g f h =
          let (b, k, q) =
            >>=-returned (update_if objects x es type)
              (is_object_in_context_scope objects context p x) out h in
          Permitted-decided uid x b g f k q

      Permitted-uid :
          (uid : Option Value)
          → get "uid" (fields es) ≡ uid
          → by_uid objects uid type p es context ≡ ok out
          → Permitted context out
      unfolding process_cascade_update
      Permitted-uid none g h = subst (Permitted context) (ok-injective h) (p, m, a, g)
      Permitted-uid (some uid) g h =
          Permitted-found uid (get_object_by_identifier (to_int uid) type) g refl h

    Permitted-allowed :
        (p : PropertyMetadata) (es : Entries) (type : String) (b : Bool)
        → context.property_metadata ≡ some p
        → allows_cascade_persistence objects p.class_name p.name ≡ ok b
        → if_allowed objects b (by_uid objects (get "uid" (fields es)) type p es context) ≡ ok out
        → Permitted context out
    Permitted-allowed p es type false m a h = cc
    Permitted-allowed p es type true m a h =
        Permitted-uid p es type m a (get "uid" (fields es)) refl h

    Permitted-property :
        (p : Option PropertyMetadata) (es : Entries) (type : String)
        → context.property_metadata ≡ p
        → through_property objects p es type context ≡ ok out
        → Permitted context out
    Permitted-property none es type m h = cc
    Permitted-property (some p) es type m h =
        let (b, a, q) =
          >>=-returned _ (allows_cascade_persistence objects p.class_name p.name) out h in
        Permitted-allowed p es type b m a q

    Permitted-value :
        (v : Value) (type : String)
        → from_value objects v type context ≡ ok out
        → Permitted context out
    unfolding process_cascade_persistence
    Permitted-value (arr es) type h = Permitted-property context.property_metadata es type refl h
    Permitted-value null type h = cc
    Permitted-value (bool b) type h = cc
    Permitted-value (int z) type h = cc
    Permitted-value (str s) type h = cc

    Permitted-into_object :
        (v : Value) (type : String) (numeric : Bool)
        → into_object objects numeric type v context ≡ ok out
        → Permitted context out
    Permitted-into_object v type true h = subst (Permitted context) (ok-injective h) tt
    Permitted-into_object v type false h = Permitted-value v type h

    Permitted-into :
        (v : Value) (type : String) (b : Bool)
        → into objects b type v context ≡ ok out
        → Permitted context out
    Permitted-into v type false h = subst (Permitted context) (ok-injective h) tt
    Permitted-into v type true h = Permitted-into_object v type (is_numeric v) h

    Permitted-target :
        (target : Option String) (name : String) (v : Value)
        → for_target objects target name v context ≡ ok out
        → Permitted context out
    Permitted-target none name v h = subst (Permitted context) (ok-injective h) tt
    Permitted-target (some type) name v h =
        Permitted-into v type
          (name == transport_type && is_filled objects type && is_domain_class type) h

  -- Whatever data a client sends for a related object: a new object is made only through a property that
  -- allows cascade persistence, from data without a uid; and an object is written into only through
  -- such a property, if it is the one with the uid of the data and class of the property, and the target
  -- holds it in that property already. Anything else refers to an object, gives nothing, or throws.
  pub deserialize_object-Permitted :
      (t : TypeName) (v : Value) (context : Context) (out : Transported)
      → deserialize_object objects t v context ≡ ok out
      → Permitted context out
  unfolding deserialize_object
  deserialize_object-Permitted t v context out h =
      Permitted-target context out t.target_type t.name v h

  -- Data with the uid of an object that exists, for a property that allows cascade persistence, in a
  -- request without a target, such as POST: it ends with the exception of which the message says that it is
  -- never thrown.
  deserialize_object_without_target :
      (t : TypeName) (type : String) (es : Entries) (uid : Value) (context : Context)
      (p : PropertyMetadata) (x : Ref)
      → t.name ≡ transport_type
      → t.target_type ≡ some type
      → is_filled objects type ≡ true
      → is_domain_class type ≡ true
      → context.property_metadata ≡ some p
      → AllowsCascade p
      → get "uid" (fields es) ≡ some uid
      → get_object_by_identifier (to_int uid) type ≡ some x
      → context.target ≡ none
      → deserialize_object objects t (arr es) context ≡ thrown (runtime 1589811502043)
  unfolding deserialize_object process_cascade_persistence process_cascade_update
      is_object_in_context_scope is_numeric
  deserialize_object_without_target t type es uid context p x n k filled domain m a g f no_target =
      rw (k, n, filled, domain, m, a, g, f, no_target) refl
