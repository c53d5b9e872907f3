-- ===== src/Serializer/Types.antt =====
-- Classes/Service/SerializerMetadataService.php: the texts of the types of properties.
use t3api.Base.{String, Bool, true, false, Option, none, some, List, [], ◌∷◌, ◌==◌, if◌then◌else◌}
use t3api.Base.Text.{concat, implode}

-- `Type` of Symfony's component PropertyInfo, with the types of its values for a collection.
mutual
  pub data PropertyType : Type 0 where
    property_type :
        (builtin_type : String)
        → (class_name : Option String) → (collection : Bool) → (value_types : PropertyTypes)
        → PropertyType

  pub data PropertyTypes : Type 0 where
    no_types : PropertyTypes
    type_and : PropertyType → PropertyTypes → PropertyTypes

-- `$type->getClassName()`, where it is neither null nor empty
abbrev named_class : Option String → Option String
named_class none = none
named_class (some c) = if c == "" then none else some c

-- The first argument is `is_a($class, $ancestor, true)`.
abbrev of_class : (String → String → Bool) → String → String
of_class is_a c =
    if is_a c "DateTime"
    then "DateTime<'Y-m-d\\TH:i:s.vP'>"
    else if is_a c "DateTimeImmutable"
    then "DateTimeImmutable<'Y-m-d\\TH:i:s.vP'>"
    else c

abbrev class_or_builtin : (String → String → Bool) → String → Option String → String
class_or_builtin is_a builtin none = builtin
class_or_builtin is_a builtin (some c) = of_class is_a c

abbrev collection_of : Option String → String → String
collection_of none types = concat ("array<" ∷ types ∷ ">" ∷ [])
collection_of (some c) types = concat (c ∷ "<" ∷ types ∷ ">" ∷ [])

unfoldable mutual
  pub stringify_property_type : (String → String → Bool) → PropertyType → String
  stringify_property_type is_a (property_type builtin c false ts) =
      class_or_builtin is_a builtin (named_class c)
  stringify_property_type is_a (property_type builtin c true no_types) = "array"
  stringify_property_type is_a (property_type builtin c true (type_and t ts)) =
      collection_of (named_class c)
        (implode ", " (stringify_property_type is_a t ∷ stringify_all is_a ts))

  pub stringify_all : (String → String → Bool) → PropertyTypes → List String
  stringify_all is_a no_types = []
  stringify_all is_a (type_and t ts) = stringify_property_type is_a t ∷ stringify_all is_a ts

-- The first type that an extractor gives for a property, of the first extractor that gives one.
unfoldable pub get_property_type :
    (String → String → Bool)
    → List (String → String → PropertyTypes)
    → String
    → String
    → Option String
unfolding stringify_property_type
get_property_type is_a [] class_name property = none
get_property_type is_a (get_types ∷ extractors) class_name property =
    let rest = get_property_type is_a extractors class_name property in
    elim (get_types class_name property) [
      | no_types ↦ rest
      | type_and t _ ↦ some (stringify_property_type is_a t)
    ]
