-- ===== src/Domain/Operation.antt =====
-- Classes/Domain/Model/AbstractOperation.php, ItemOperation.php and CollectionOperation.php
use t3api.Base.{String, Bool, Option, none, some, List, [], ◌∷◌, ◌++◌, ◌==◌}
use t3api.Base.Int.{ℤ}
use t3api.Base.Text.{strtoupper, concat}
use t3api.Exception.{type_error}
use t3api.Result.{Result, ok, thrown, ◌>>=◌}
use t3api.Php.{Value, arr, Fields, fields, get, need_string}
use t3api.Domain.Settings.{
  PersistenceSettings, UploadSettings, create_persistence, create_upload, array_or_empty,
}
use t3api.Domain.Pagination.{Pagination}
use t3api.Domain.Pagination
use t3api.Domain.Filter.{ApiFilter}

-- the arguments of `new Route(…)` that are not constant
pub record Route : Type 0 where
  pub path : String
  pub defaults : Fields
  pub requirements : Fields
  pub methods : List String

-- An item operation or a collection operation, with what only the latter has.
pub data Kind : Type 0 where
  item : Kind
  collection : Pagination → List ApiFilter → Kind

pub record Operation : Type 0 where
  pub key : String
  -- the entity of its resource
  pub entity : String
  pub method : String
  pub path : String
  pub route : Route
  pub normalization_context : Option Fields
  pub denormalization_context : Option Fields
  pub security : String
  pub security_post_denormalize : String
  pub persistence : PersistenceSettings
  pub upload : UploadSettings
  pub kind : Kind

-- `$params[$key] ?? $default` for a property `string`
abbrev text_param : String → String → Fields → Result String
text_param key default params = elim (get key params) [ none ↦ ok default | some v ↦ need_string v ]

-- `isset($params[$key]) ? array_replace_recursive([], $params[$key]) : null`
abbrev context_param : Option Value → Result (Option Fields)
context_param none = ok none
context_param (some (arr es)) = ok (some (fields es))
context_param (some _) = thrown type_error

-- What an operation takes over from its resource.
pub record Inherited : Type 0 where
  pub resource_entity : String
  pub resource_pagination : Pagination
  pub resource_persistence : PersistenceSettings
  pub resource_upload : UploadSettings

-- The environment of the constructors: `RouteService::getFullApiBasePath()`, and the functions of
-- TYPO3 that the settings use.
pub record Environment : Type 0 where
  pub full_api_base_path : String
  pub int_explode : String → List ℤ
  pub imagefile_extensions : List String

module _ (env : Environment) where
  -- the constructor of `AbstractOperation`; `default_path` is the class's, `kind` the class
  unfoldable pub create_operation : String → Kind → String → Inherited → Fields → Result Operation
  unfolding strtoupper
  create_operation default_path kind key resource params = do
    method ← text_param "method" "GET" params
    path ← text_param "path" default_path params
    security ← text_param "security" "" params
    security_post ← text_param "security_post_denormalize" "" params
    normalization ← context_param (get "normalizationContext" params)
    denormalization ← context_param (get "denormalizationContext" params)
    defaults ← array_or_empty (get "defaults" params)
    requirements ← array_or_empty (get "requirements" params)
    attributes ← array_or_empty (get "attributes" params)
    persistence_attributes ← array_or_empty (get "persistence" attributes)
    persistence ←
        create_persistence env.int_explode persistence_attributes
          (some resource.resource_persistence)
    upload_attributes ← array_or_empty (get "upload" attributes)
    upload ←
        create_upload env.imagefile_extensions upload_attributes (some resource.resource_upload)
    ok (record {
      key = key;
      entity = resource.resource_entity;
      method = strtoupper method;
      path = path;
      route = record {
        path = concat (env.full_api_base_path ∷ path ∷ []);
        defaults = defaults;
        requirements = requirements;
        methods = strtoupper method ∷ "OPTIONS" ∷ [];
      };
      normalization_context = normalization;
      denormalization_context = denormalization;
      security = security;
      security_post_denormalize = security_post;
      persistence = persistence;
      upload = upload;
      kind = kind;
    })

  unfoldable pub create_item_operation : String → Inherited → Fields → Result Operation
  unfolding create_operation
  create_item_operation key resource params = create_operation "/{id}" item key resource params

  -- The pagination is created after all that the parent's constructor sets.
  unfoldable pub create_collection_operation : String → Inherited → Fields → Result Operation
  unfolding create_operation
  create_collection_operation key resource params = do
    o ← create_operation "/" item key resource params
    attributes ← array_or_empty (get "attributes" params)
    pagination ← Pagination.create attributes (some resource.resource_pagination)
    ok (record o { kind = collection pagination [] })

-- `addFilter` of a collection operation
unfoldable pub add_operation_filter : ApiFilter → Operation → Operation
add_operation_filter f o = elim o.kind [
  | item ↦ o
  | collection p fs ↦ record o { kind = collection p (fs ++ f ∷ []) }
]

-- `isMethodGet` and the like
abbrev pub is_method : String → Operation → Bool
is_method m o = o.method == m
