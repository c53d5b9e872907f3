-- ===== src/Objects.antt =====
-- Classes/Serializer: how related objects and files are read from the data of a request, with
-- Classes/Service/PropertyInfoService.php. The persistence manager, the reflection and the serializer are
-- outside the repository; where a handler hands over to the serializer, that is its result here.
pub mod Cascade
pub mod Contexts
pub mod Files
pub mod Links
pub mod Images
pub mod Subscribers
pub mod Users
pub mod Accessors
use t3api.Base.{
  ◌&&◌, ℕ, String, Bool, true, false, not, ◌||◌, Option, none, some, List, [], ◌∷◌, ◌==◌, eqb,
  if◌then◌else◌,
}
use t3api.Base.Int.{ℤ, eqb_ℤ}
use t3api.Exception.{Throwable, error, runtime, invalid_argument}
use t3api.Result.{Result, ok, thrown, ◌>>=◌}
use t3api.Php.{Value, str, int, arr, Entries, Fields, fields, get, to_int}
use t3api.Php.Numeric.{is_numeric}
use t3api.Runtime.{Ref}

-- what a property of a domain object holds
pub data Property : Type 0 where
  storage : List Ref → Property
  related : Ref → Property
  other_value : Property

pub record PropertyMetadata : Type 0 where
  pub class_name : String
  pub name : String
  pub type_name : String

-- What the handlers ask of the persistence manager, the reflection and the annotations.
pub record Objects : Type 0 where
  pub get_object_by_identifier : ℤ → String → Option Ref
  pub get_uid : Ref → Option ℤ
  pub get_property : Ref → String → Result Property
  pub is_domain_class : String → Bool
  pub is_storage_class : String → Bool
  -- the values of the annotations `Cascade` of a property, or the exception that reading them raises
  pub cascade_annotations : String → String → Result (List (List Value))

-- The type that the serializer looks for, with the parameter `targetType`.
pub record TypeName : Type 0 where
  pub name : String
  pub target_type : Option String

-- The context of a deserialization: the property that is read, if one is, and the attribute `target`.
pub record Context : Type 0 where
  pub property_metadata : Option PropertyMetadata
  pub target : Option Ref

-- What becomes of the data: nothing, an object that is only referred to, data from which the serializer
-- makes a new object of a class, or data which it writes into an object.
pub data Transported : Type 0 where
  nothing : Transported
  existing : Option Ref → Transported
  inserted : Entries → String → Transported
  updated : Ref → Entries → String → Transported

-- `in_array('persist', $values, true)`
abbrev pub has_persist : List Value → Bool
has_persist [] = false
has_persist (str s ∷ vs) = let later = has_persist vs in if s == "persist" then true else later
has_persist (_ ∷ vs) = has_persist vs

abbrev pub any_persists : List (List Value) → Bool
any_persists [] = false
any_persists (values ∷ rest) =
    let later = any_persists rest in if has_persist values then true else later

-- `AbstractDomainObjectHandler::TYPE`
abbrev pub transport_type : String
transport_type = "AbstractDomainObjectTransport"

abbrev pub contains : List Ref → Ref → Bool
contains [] x = false
contains (y ∷ ys) x = let later = contains ys x in if eqb y x then true else later

abbrev pub same_uid : Option ℤ → Option ℤ → Bool
same_uid none none = true
same_uid (some a) (some b) = eqb_ℤ a b
same_uid _ _ = false

module _ (objects : Objects) where
  open objects use {
    get_object_by_identifier, get_uid, get_property, is_domain_class, is_storage_class,
    cascade_annotations,
  }

  -- `PropertyInfoService::allowsCascadePersistence`
  unfoldable pub allows_cascade_persistence : String → String → Result Bool
  allows_cascade_persistence class_name name = elim (cascade_annotations class_name name) [
    | ok annotations ↦ ok (any_persists annotations)
    | thrown e ↦ thrown (runtime 1584949881062)
  ]

  -- the test on the property of the parent, whose type is a storage or not
  abbrev pub in_property : Bool → Property → Ref → Result Bool
  in_property true (storage xs) x = ok (contains xs x)
  in_property true _ x = thrown error
  in_property false (related y) x = ok (same_uid (get_uid x) (get_uid y))
  in_property false _ x = thrown (runtime 1589811431286)

  abbrev pub in_property_of : Option Ref → PropertyMetadata → Ref → Result Bool
  in_property_of none p x = thrown (runtime 1589811502043)
  in_property_of (some parent) p x =
      get_property parent p.name >>= λ v. in_property (is_storage_class p.type_name) v x

  -- `isObjectInContextScope`
  unfoldable pub is_object_in_context_scope : Context → PropertyMetadata → Ref → Result Bool
  is_object_in_context_scope context p x = in_property_of context.target p x

  abbrev pub update_if : Ref → Entries → String → Bool → Result Transported
  update_if x data_of type true = ok (updated x data_of type)
  update_if x data_of type false = thrown (invalid_argument 1589811402076)

  abbrev pub update_found :
      Option Ref → String → PropertyMetadata → Entries → Context → Result Transported
  update_found none type p es context = thrown (invalid_argument 1588278656829)
  update_found (some x) type p es context =
      is_object_in_context_scope context p x >>= update_if x es type

  -- `processCascadeUpdate`
  unfoldable pub process_cascade_update :
      ℤ → String → PropertyMetadata → Entries → Context → Result Transported
  unfolding is_object_in_context_scope
  process_cascade_update uid type p es context =
      update_found (get_object_by_identifier uid type) type p es context

  abbrev pub by_uid :
      Option Value → String → PropertyMetadata → Entries → Context → Result Transported
  by_uid none type p es context = ok (inserted es type)
  by_uid (some v) type p es context = process_cascade_update (to_int v) type p es context

  abbrev pub if_allowed : Bool → Result Transported → Result Transported
  if_allowed true next = next
  if_allowed false next = thrown (runtime 1584950593298)

  abbrev pub through_property :
      Option PropertyMetadata → Entries → String → Context → Result Transported
  through_property none es type context = thrown (runtime 1584951142196)
  through_property (some p) es type context =
      allows_cascade_persistence p.class_name p.name >>= λ allowed.
      if_allowed allowed (by_uid (get "uid" (fields es)) type p es context)

  -- `processCascadePersistence`
  unfoldable pub process_cascade_persistence : Entries → String → Context → Result Transported
  unfolding allows_cascade_persistence process_cascade_update get to_int
  process_cascade_persistence es type context =
      through_property context.property_metadata es type context

  abbrev pub from_value : Value → String → Context → Result Transported
  from_value (arr es) type context = process_cascade_persistence es type context
  from_value v type context = thrown (invalid_argument 1584866997736)

  abbrev pub is_filled : String → Bool
  is_filled s = not (s == "" || s == "0")

  abbrev pub into_object : (numeric : Bool) → String → Value → Context → Result Transported
  into_object true type v context = ok (existing (get_object_by_identifier (to_int v) type))
  into_object false type v context = from_value v type context

  abbrev pub into : Bool → String → Value → Context → Result Transported
  into false type v context = ok nothing
  into true type v context = into_object (is_numeric v) type v context

  abbrev pub for_target : Option String → String → Value → Context → Result Transported
  for_target none name v context = ok nothing
  for_target (some type) name v context =
      into (name == transport_type && is_filled type && is_domain_class type) type v context

  -- `AbstractDomainObjectHandler::deserialize`
  unfoldable pub deserialize_object : TypeName → Value → Context → Result Transported
  unfolding process_cascade_persistence is_numeric
  deserialize_object t v context = for_target t.target_type t.name v context
