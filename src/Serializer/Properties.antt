-- ===== src/Serializer/Properties.antt =====
-- Classes/Service/SerializerMetadataService.php: the metadata of the properties of a class.
use t3api.Base.{String, Bool, true, not, Option, none, some, List, [], ◌∷◌, ◌==◌, if◌then◌else◌}
use t3api.Base.Text.{concat, lcfirst, substr, str_starts_with}
use t3api.Result.{Result, ok, ◌>>=◌}
use t3api.Php.{Value, null, bool, str, Fields, get, to_bool}
use t3api.Serializer.Params.{Json, encode_to_handler_params}
use t3api.Serializer.Types.{PropertyTypes, get_property_type}

-- The annotations of Classes/Annotation/Serializer; a `TypeInterface` is given by its name and its params.
pub data Annotation : Type 0 where
  groups : Value → Annotation
  type_interface : (name : String) → (params : List Value) → Annotation
  read_only_property : Value → Annotation
  exclude : (if_condition : String) → Annotation
  max_depth : Value → Annotation
  serialized_name : Value → Annotation
  virtual_property : (name : Value) → Annotation
  other : Annotation

-- `$metadata[$key] = $v`
unfoldable pub set : String → Value → Fields → Fields
set key v [] = (key, v) ∷ []
set key v ((k, w) ∷ rest) =
    let others = set key v rest in if k == key then (k, v) ∷ rest else (k, w) ∷ others

-- `$annotation->getName()`, with the params in angle brackets
unfoldable pub type_text : Json → String → List Value → Result String
unfolding encode_to_handler_params
type_text json name [] = ok name
type_text json name (p ∷ ps) = do
  text ← encode_to_handler_params json (p ∷ ps)
  ok (concat (name ∷ "<" ∷ text ∷ ">" ∷ []))

abbrev exclusion : String → Fields → Fields
exclusion condition metadata =
    if condition == ""
    then set "exclude" (bool true) metadata
    else set "exclude_if" (str condition) metadata

-- one round of the loop over the annotations
unfoldable pub add_annotation : Json → Annotation → Fields → Result Fields
unfolding set type_text
add_annotation json (groups v) metadata = ok (set "groups" v metadata)
add_annotation json (type_interface name params) metadata = do
  text ← type_text json name params
  ok (set "type" (str text) metadata)
add_annotation json (read_only_property v) metadata = ok (set "read_only" v metadata)
add_annotation json (exclude condition) metadata = ok (exclusion condition metadata)
add_annotation json (max_depth v) metadata = ok (set "max_depth" v metadata)
add_annotation json (serialized_name v) metadata = ok (set "serialized_name" v metadata)
add_annotation json (virtual_property _) metadata = ok metadata
add_annotation json other metadata = ok metadata

add_annotations : Json → List Annotation → Fields → Result Fields
unfolding add_annotation
add_annotations json [] metadata = ok metadata
add_annotations json (a ∷ rest) metadata = do
  next ← add_annotation json a metadata
  add_annotations json rest next

unfoldable pub get_property_metadata_from_annotations : Json → List Annotation → Result Fields
unfolding add_annotations
get_property_metadata_from_annotations json annotations = add_annotations json annotations []

-- `empty($metadata['type'])`
unfoldable pub lacks_type : Fields → Bool
lacks_type metadata = elim (get "type" metadata) [ none ↦ true | some v ↦ not (to_bool v) ]

-- What reflection and the readers of annotations and types give.
pub record Reflection : Type 0 where
  pub properties : String → List (String × List Annotation)
  -- the public methods
  pub methods : String → List (String × List Annotation)
  -- `is_a($class, $ancestor, true)`
  pub is_a : String → String → Bool
  pub extractors : List (String → String → PropertyTypes)

abbrev pub AllMetadata : Type 0
AllMetadata = List (String × Fields)

pub record ClassMetadata : Type 0 where
  pub of_properties : AllMetadata
  pub of_virtual_properties : AllMetadata

module _ (json : Json) (reflection : Reflection) where
  open reflection use {properties, methods, is_a, extractors}

  abbrev type_of : String → String → Option String
  type_of = get_property_type is_a extractors

  abbrev with_type : Option String → Fields → Fields
  with_type none metadata = metadata
  with_type (some t) metadata = set "type" (str t) metadata

  abbrev type_or_null : Option String → Value
  type_or_null none = null
  type_or_null (some t) = str t

  unfoldable pub get_property : String → String × List Annotation → Result (String × Fields)
  unfolding get_property_metadata_from_annotations get_property_type lacks_type
  get_property c (name, annotations) = do
    metadata ← get_property_metadata_from_annotations json annotations
    ok (name, if lacks_type metadata then with_type (type_of c name) metadata else metadata)

  collect_properties : String → List (String × List Annotation) → Result AllMetadata
  unfolding get_property
  collect_properties c [] = ok []
  collect_properties c (p ∷ rest) = do
    first ← get_property c p
    others ← collect_properties c rest
    ok (first ∷ others)

  unfoldable pub get_properties : String → Result AllMetadata
  unfolding collect_properties
  get_properties c = collect_properties c (properties c)

  -- `getMethodAnnotation($reflectionMethod, VirtualProperty::class)`, as the name that it has
  abbrev virtual_name : List Annotation → Option Value
  virtual_name [] = none
  virtual_name (virtual_property name ∷ rest) = some name
  virtual_name (_ ∷ rest) = virtual_name rest

  unfoldable pub accessor_name : String → String
  unfolding lcfirst
  accessor_name method =
      if str_starts_with method "is"
      then lcfirst (substr method 2)
      else if str_starts_with method "get"
      then lcfirst (substr method 3)
      else if str_starts_with method "has"
      then lcfirst (substr method 3)
      else method

  -- `!empty($virtualProperty->name) ? $virtualProperty->name : $accessorName`
  abbrev property_name : Value → String → Value
  property_name name method = if to_bool name then name else str (accessor_name method)

  -- `array_merge`
  abbrev merge_fields : Fields → Fields → Fields
  merge_fields fs [] = fs
  merge_fields fs ((k, v) ∷ rest) = merge_fields (set k v fs) rest

  unfoldable pub get_virtual_property :
      String → Value → String → List Annotation → Result (String × Fields)
  unfolding get_property_metadata_from_annotations get_property_type lacks_type accessor_name set
  get_virtual_property c name method annotations = do
    let named =
        ("name", property_name name method) ∷ ("serialized_name", property_name name method) ∷ []
    own ← get_property_metadata_from_annotations json annotations
    let metadata = merge_fields named own
    ok (
      method,
      if lacks_type metadata
          then set "type" (type_or_null (type_of c (accessor_name method))) metadata
          else metadata,
    )

  collect_virtual : String → List (String × List Annotation) → Result AllMetadata
  unfolding get_virtual_property
  collect_virtual c [] = ok []
  collect_virtual c ((method, annotations) ∷ rest) =
      let others = collect_virtual c rest in
      elim (virtual_name annotations) [
        | none ↦ others
        | some name ↦ (do
          first ← get_virtual_property c name method annotations
          more ← others
          ok (first ∷ more))
      ]

  unfoldable pub get_virtual_properties : String → Result AllMetadata
  unfolding collect_virtual
  get_virtual_properties c = collect_virtual c (methods c)

  unfoldable pub get_for_class : String → Result ClassMetadata
  unfolding get_properties get_virtual_properties
  get_for_class c = do
    of_properties ← get_properties c
    of_virtual_properties ← get_virtual_properties c
    ok (record { of_properties = of_properties; of_virtual_properties = of_virtual_properties })
