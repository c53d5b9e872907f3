-- ===== src/Objects/Subscribers.antt =====
-- Classes/Serializer/Subscriber: the subscribers that change the data and the types that the serializer reads,
-- and what they add to serialized objects. Classes/Serializer/Handler/CurrentFeUserHandler.php
-- and PasswordHashHandler.php.
use t3api.Base.{
  ℕ, String, Bool, true, false, not, ◌&&◌, Option, none, some, List, [], ◌∷◌, ◌==◌, ltb,
  if◌then◌else◌,
}
use t3api.Base.Int.{ℤ}
use t3api.Exception.{type_error}
use t3api.Result.{Result, ok, thrown}
use t3api.Php.{Value, null, str, int, Fields}
use t3api.Runtime.{Ref}
use t3api.Objects.{transport_type}

-- `$data[$name] = $value`
unfoldable pub put : String → Value → Fields → Fields
put name v [] = (name, v) ∷ []
put name v ((k, u) ∷ rest) =
    let others = put name v rest in if k == name then (k, v) ∷ rest else (k, u) ∷ others

abbrev user_type : String
user_type = "CurrentFeUser"

-- A property of the metadata of a class, with the name under which the serializer reads and writes it, and the
-- name of its type, if it has one.
pub record PropertyType : Type 0 where
  pub property : String
  pub serialized_name : String
  pub type_name : Option String

abbrev pub is_current_user : PropertyType → Bool
is_current_user p = elim p.type_name [ none ↦ false | some t ↦ t == user_type ]

-- `$GLOBALS['TSFE']->fe_user->user['uid'] ?? null`
abbrev pub user_value : Option ℤ → Value
user_value none = null
user_value (some uid) = int uid

-- `CurrentFeUserSubscriber::onPreDeserialize`, for the properties of the class that is read
unfoldable pub set_current_user : Option ℤ → List PropertyType → Fields → Fields
unfolding put
set_current_user user [] fields = fields
set_current_user user (p ∷ ps) fields =
    set_current_user user ps
      (if is_current_user p then put p.property (user_value user) fields else fields)

-- A type and its parameters, as `onPreDeserialize` of the subscriber of entities sees it: `skips` is whether
-- `_skipDomainObjectTransport` is set.
pub record ReadType : Type 0 where
  pub name : String
  pub target_type : Option String
  pub skips : Bool

-- `AbstractEntitySubscriber::onPreDeserialize`, at a depth of the data
unfoldable pub transported_type : (String → Bool) → ℕ → ReadType → ReadType
transported_type is_domain_class depth t =
    if not t.skips && is_domain_class t.name && ltb 1 depth
    then record { name = transport_type; target_type = some t.name; skips = false }
    else t

-- the type with which `processCascadeInsert` calls the serializer
abbrev pub inserted_type : String → ReadType
inserted_type class_name = record { name = class_name; target_type = none; skips = true }

-- `PasswordHashHandler::deserialize`, given the hash of TYPO3
unfoldable pub deserialize_password : (String → String) → Value → Option String
deserialize_password hash (str s) = some (hash s)
deserialize_password hash _ = none

-- `CurrentFeUserHandler::deserialize`: an object, as the type that is declared
unfoldable pub deserialize_current_user :
    (Value → String → Option Ref) → Value → String → Result Ref
deserialize_current_user get_object v type = elim (get_object v type) [
  | none ↦ thrown type_error
  | some x ↦ ok x
]

-- An entry of the trace of a throwable, as far as it has one.
pub record Frame : Type 0 where
  pub file : Option Value
  pub line : Option Value
  pub function_name : Option Value
  pub class_name : Option Value

abbrev or_empty : Option Value → Value
or_empty none = str ""
or_empty (some v) = v

abbrev frame_fields : Frame → Fields
frame_fields f =
    ("file", or_empty f.file)
    ∷ ("line", or_empty f.line)
    ∷ ("function", or_empty f.function_name)
    ∷ ("class", or_empty f.class_name)
    ∷ []

-- what is added to a serialized throwable: its message, and in the debug mode where it was raised
pub data Added : Type 0 where
  description : String → Added
  debug : List Fields → Added

abbrev frames : List Frame → List Fields
frames [] = []
frames (f ∷ fs) = frame_fields f ∷ frames fs

-- `ThrowableSubscriber::onPostSerialize`
unfoldable pub describe_throwable : Bool → String → Value → Value → List Frame → List Added
describe_throwable debug_mode message file line trace =
    description message
    ∷ (if debug_mode
        then debug (
            (("file", file) ∷ ("line", line) ∷ ("function", null) ∷ ("class", null) ∷ [])
            ∷ frames trace)
          ∷ []
        else [])
