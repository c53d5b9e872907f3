-- ===== src/OpenApi/Components.antt =====
-- Classes/Service/OpenApiBuilder.php: the schemas of the classes, which refer to each other. The metadata of
-- a class, and what PHP knows of the name of a type, come from outside.
use t3api.Domain.Operation.{Operation, is_method}
use t3api.Base.{
  ℕ, zero, suc, String, Bool, true, false, not, ◌||◌, Option, none, some, List, [], ◌∷◌, ◌++◌, ◌==◌,
  map, if◌then◌else◌,
}
use t3api.Base.Text.{concat, in_array, backslashes_to_dots}
use t3api.Exception.{Throwable, runtime}
use t3api.Result.{Result, ok, thrown}
use t3api.Action.{Action, pure, lift, ◌>>=◌, ◌>>◌}

pub data Mode : Type 0 where
  read_mode : Mode
  write_mode : Mode

abbrev pub mode_name : Mode → String
mode_name read_mode = "READ"
mode_name write_mode = "WRITE"

-- A schema of a type. A reference has the identifier that follows `#/components/schemas/`.
pub data TypeSchema : Type 0 where
  array_of : TypeSchema → TypeSchema
  date_schema : TypeSchema
  number_schema : TypeSchema
  integer_schema : TypeSchema
  boolean_schema : TypeSchema
  string_schema : TypeSchema
  reference : String → TypeSchema

pub record PropertySchema : Type 0 where
  pub name : String
  pub read_only : Option Bool
  pub schema : TypeSchema

-- A property in the metadata of a class, with the name of its type and that of the first parameter.
pub record PropertyMetadata : Type 0 where
  pub class_name : String
  pub serialized_name : String
  pub read_only : Bool
  pub type_name : String
  pub element : Option String

pub record Classes : Type 0 where
  -- whether a throwable is an `Exception`
  pub is_exception : Throwable → Bool
  pub metadata_of : String → Result (List PropertyMetadata)
  pub is_storage : String → Bool
  pub is_date_time : String → Bool
  pub class_exists : String → Bool
  -- `isApiResourceClass`: the resources that are documented are of this class
  pub is_api_resource : String → Bool

-- The components, the classes that are being described, the last one first, and whether a round of the
-- recursion was missing.
pub record Docs : Type 0 where
  pub schemas : List (String × List PropertySchema)
  pub processing : List String
  pub exhausted : Bool

abbrev pub no_docs : Docs
no_docs = record { schemas = []; processing = []; exhausted = false }

abbrev pub names : List (String × List PropertySchema) → List String
names schemas = map (λ x. x.0) schemas

unfoldable pub identifier : Mode → String → String
unfolding backslashes_to_dots
identifier mode class_name = concat (backslashes_to_dots class_name ∷ "__" ∷ mode_name mode ∷ [])

abbrev pub is_filled : String → Bool
is_filled s = not (s == "" || s == "0")

-- `unset($list[array_search($x, $list, true)])`
abbrev pub without : String → List String → List String
without x [] = []
without x (y ∷ ys) = let rest = without x ys in if y == x then ys else y ∷ rest

-- what is done for the name of a type
pub data Form : Type 0 where
  dated : Form
  numbered : Form
  referred : Form
  basic : Form

-- the names of types that are no classes
abbrev pub basic_schema : String → TypeSchema
basic_schema type =
    if type == "int" || type == "integer"
    then integer_schema
    else if type == "string"
    then string_schema
    else if type == "double" || type == "float"
    then number_schema
    else if type == "boolean" || type == "bool"
    then boolean_schema
    else string_schema

module _ (classes : Classes) where
  open classes use {
    is_exception, metadata_of, is_storage, is_date_time, class_exists, is_api_resource,
  }

  abbrev pub form_of : Mode → String → Form
  form_of mode type =
      if is_date_time type
      then dated
      else if class_exists type
      then elim mode [ write_mode ↦ numbered | read_mode ↦ referred ]
      else basic

  -- the schemas of the classes that a type refers to are made by `refer`
  module _ (refer : String → Action Docs String) (mode : Mode) where
    abbrev pub schema_of_form : Form → String → Action Docs TypeSchema
    schema_of_form dated type = pure date_schema
    schema_of_form numbered type = pure number_schema
    schema_of_form basic type = pure (basic_schema type)
    schema_of_form referred type = do i ← refer type; pure (reference i)

    -- `getPropertySchemaFromPropertyType` without parameters
    abbrev pub schema_of_type : String → Action Docs TypeSchema
    schema_of_type type = schema_of_form (form_of mode type) type

    abbrev pub element_of : PropertyMetadata → Option String
    element_of p = if is_storage p.type_name then p.element else none

    -- `getPropertySchemaFromPropertyType`; an element that is empty is none
    abbrev pub schema_of_element : Option String → String → Action Docs TypeSchema
    schema_of_element none type = schema_of_type type
    schema_of_element (some e) type =
        if is_filled e then (do s ← schema_of_type e; pure (array_of s)) else schema_of_type type

    -- `getPropertySchemaFromPropertyMetadata`
    abbrev pub schema_of_property : PropertyMetadata → Action Docs PropertySchema
    schema_of_property p = do
      s ← schema_of_element (element_of p) p.type_name
      pure (record { name = p.serialized_name; read_only = some p.read_only; schema = s })

    -- the loop over the properties, those of the class itself
    abbrev pub collect : List PropertyMetadata → Action Docs (List PropertySchema)
    collect [] = pure []
    collect (p ∷ ps) = do s ← schema_of_property p; rest ← collect ps; pure (s ∷ rest)

  abbrev pub own : String → List PropertyMetadata → List PropertyMetadata
  own class_name [] = []
  own class_name (p ∷ ps) =
      let rest = own class_name ps in if p.class_name == class_name then p ∷ rest else rest

  abbrev pub id_property : PropertySchema
  id_property = record { name = "@id"; read_only = none; schema = string_schema }

  abbrev pub ids : Mode → String → List PropertySchema
  ids write_mode class_name = []
  ids read_mode class_name = if is_api_resource class_name then id_property ∷ [] else []

  -- the metadata; an exception is wrapped in another, an `Error` is not
  abbrev pub metadata : String → Result (List PropertyMetadata)
  metadata class_name = elim (metadata_of class_name) [
    | ok ps ↦ ok ps
    | thrown e ↦ thrown (if is_exception e then runtime 1577637267693 else e)
  ]

  abbrev pub begin : String → Action Docs (Unit {0})
  begin class_name s = (ok tt, record s { processing = class_name ∷ s.processing })

  abbrev pub finish : Mode → String → List PropertySchema → Action Docs (Unit {0})
  finish mode class_name properties s = (
    ok tt,
    record s {
      schemas = s.schemas ++ ((identifier mode class_name, properties) ∷ []);
      processing = without class_name s.processing;
    },
  )

  abbrev pub describe : (String → Action Docs String) → Mode → String → Action Docs (Unit {0})
  describe refer mode class_name = do
    begin class_name
    ps ← lift (metadata class_name)
    properties ← collect refer mode (own class_name ps)
    finish mode class_name (properties ++ ids mode class_name)

  abbrev pub exhaust : Action Docs (Unit {0})
  exhaust s = (ok tt, record s { exhausted = true })

  -- `getComponentsSchemaReference`, given `setComponentsSchema`
  abbrev pub reference_by : (String → Action Docs (Unit {0})) → Mode → String → Action Docs String
  reference_by set mode class_name s =
      if in_array (identifier mode class_name) (names s.schemas)
      then (ok (identifier mode class_name), s)
      else (do set class_name; pure (identifier mode class_name)) s

  abbrev pub unless_processing : Bool → Action Docs (Unit {0}) → Action Docs (Unit {0})
  unless_processing true next = pure tt
  unless_processing false next = next

  -- `setComponentsSchema`, with as many rounds of the recursion as classes that are not yet described
  unfoldable pub set_components_schema : ℕ → Mode → String → Action Docs (Unit {0})
  unfolding identifier
  set_components_schema zero mode class_name s =
      unless_processing (in_array class_name s.processing) exhaust s
  set_components_schema (suc n) mode class_name s =
      unless_processing (in_array class_name s.processing)
        (describe (reference_by (set_components_schema n mode) mode) mode class_name) s

  -- `getComponentsSchemaReference`
  unfoldable pub get_components_schema_reference : ℕ → Mode → String → Action Docs String
  unfolding set_components_schema
  get_components_schema_reference n mode class_name =
      reference_by (set_components_schema n mode) mode class_name

  -- The references of an operation: in the response that it documents, and in the body of the request, which
  -- GET and DELETE have none of (`getOperationSchema` and `getOperationRequestBody`).
  unfoldable pub reference_operation : ℕ → Operation → Action Docs (List String)
  unfolding get_components_schema_reference
  reference_operation n o = do
    answered ← get_components_schema_reference n read_mode o.entity
    if is_method "GET" o || is_method "DELETE" o then pure (answered ∷ []) else (do
      sent ← get_components_schema_reference n write_mode o.entity
      pure (answered ∷ sent ∷ []))

  -- those of all operations, in their order (`getPaths`)
  unfoldable pub reference_operations : ℕ → List Operation → Action Docs (List String)
  unfolding reference_operation
  reference_operations n [] = pure []
  reference_operations n (o ∷ os) = do
    here ← reference_operation n o
    rest ← reference_operations n os
    pure (here ++ rest)
