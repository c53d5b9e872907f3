-- ===== src/Domain/Resource.antt =====
-- Classes/Domain/Model/ApiResource.php, Classes/Annotation/ApiResource.php and
-- Classes/Factory/ApiResourceFactory.php. The hash of an operation object names its route; here its
-- position among the operations does, which is as distinct.
use t3api.Base.{ℕ, zero, suc, String, Option, none, some, List, [], ◌∷◌, ◌++◌, map, first}
use t3api.Exception.{type_error, invalid_argument}
use t3api.Result.{Result, ok, thrown, ◌>>=◌}
use t3api.Php.{arr, Fields, fields, get}
use t3api.Domain.Settings.{
  PersistenceSettings, UploadSettings, create_persistence, create_upload, array_or_empty,
}
use t3api.Domain.Pagination.{Pagination}
use t3api.Domain.Pagination
use t3api.Domain.Filter.{
  ApiFilter, FilterAnnotation, CustomClasses, create_from_annotations, array_merge,
}
use t3api.Domain.Operation.{
  Operation, Environment, Inherited, create_item_operation, create_collection_operation,
  add_operation_filter,
}

pub record ResourceAnnotation : Type 0 where
  pub item_operations : Fields
  pub collection_operations : Fields
  pub attributes : Fields

-- the constructor of the annotation; the first argument is the configured pagination
unfoldable pub create_annotation : Fields → Fields → Result ResourceAnnotation
create_annotation pagination values = do
  items ← array_or_empty (get "itemOperations" values)
  collections ← array_or_empty (get "collectionOperations" values)
  attributes ← array_or_empty (get "attributes" values)
  ok (record {
    item_operations = items;
    collection_operations = collections;
    attributes = array_merge pagination attributes;
  })

pub record ApiResource : Type 0 where
  pub entity : String
  pub item_operations : List Operation
  pub collection_operations : List Operation
  pub pagination : Pagination
  pub persistence : PersistenceSettings
  pub upload : UploadSettings

-- a loop of the constructor over the operations of one kind
unfoldable pub create_operations :
    (String → Fields → Result Operation) → Fields → Result (List Operation)
create_operations create [] = ok []
create_operations create ((key, arr es) ∷ rest) = do
  o ← create key (fields es)
  os ← create_operations create rest
  ok (o ∷ os)
create_operations create ((key, _) ∷ rest) = thrown type_error

-- `getOperations`
unfoldable pub get_operations : ApiResource → List Operation
get_operations r = r.item_operations ++ r.collection_operations

unfoldable pub get_main_item_operation : ApiResource → Option Operation
get_main_item_operation r = first r.item_operations

unfoldable pub get_main_collection_operation : ApiResource → Option Operation
get_main_collection_operation r = first r.collection_operations

unfoldable pub operation_at : List Operation → ℕ → Result Operation
operation_at [] n = thrown (invalid_argument 1557217180348)
operation_at (o ∷ os) zero = ok o
operation_at (o ∷ os) (suc n) = operation_at os n

unfoldable pub get_operation_by_route_name : ApiResource → ℕ → Result Operation
unfolding get_operations operation_at
get_operation_by_route_name r name = operation_at (get_operations r) name

-- `addFilter`
unfoldable pub add_filter : ApiResource → ApiFilter → ApiResource
unfolding add_operation_filter
add_filter r f = record r {
  collection_operations = map (add_operation_filter f) r.collection_operations;
}

module _ (env : Environment) where
  -- the constructor of `ApiResource`
  unfoldable pub create_resource : String → ResourceAnnotation → Result ApiResource
  unfolding create_operations
  create_resource entity a = do
    pagination ← Pagination.create a.attributes none
    persistence_attributes ← array_or_empty (get "persistence" a.attributes)
    persistence ← create_persistence env.int_explode persistence_attributes none
    upload_attributes ← array_or_empty (get "upload" a.attributes)
    upload ← create_upload env.imagefile_extensions upload_attributes none
    let resource : Inherited = record {
      resource_entity = entity;
      resource_pagination = pagination;
      resource_persistence = persistence;
      resource_upload = upload;
    }
    items ← create_operations (λ key. create_item_operation env key resource) a.item_operations
    collections ←
        create_operations (λ key. create_collection_operation env key resource)
          a.collection_operations
    ok (record {
      entity = entity;
      item_operations = items;
      collection_operations = collections;
      pagination = pagination;
      persistence = persistence;
      upload = upload;
    })

  module _ (classes : CustomClasses) where
    -- the inner and the outer loop of `addFiltersToApiResource`
    unfoldable pub add_filters : ApiResource → List ApiFilter → ApiResource
    unfolding add_filter
    add_filters r [] = r
    add_filters r (f ∷ fs) = add_filters (add_filter r f) fs

    unfoldable pub add_filters_to_api_resource :
        ApiResource → List FilterAnnotation → Result ApiResource
    unfolding add_filters
    add_filters_to_api_resource r [] = ok r
    add_filters_to_api_resource r (a ∷ rest) = do
      fs ← create_from_annotations classes a
      add_filters_to_api_resource (add_filters r fs) rest

    -- `createApiResourceFromFqcn`, given the annotations that Doctrine reads: null without the
    -- annotation `ApiResource`.
    unfoldable pub create_api_resource_from_fqcn :
        String → Option ResourceAnnotation → List FilterAnnotation → Result (Option ApiResource)
    unfolding create_resource add_filters_to_api_resource
    create_api_resource_from_fqcn fqcn none filters = ok none
    create_api_resource_from_fqcn fqcn (some a) filters = do
      r ← create_resource fqcn a
      filtered ← add_filters_to_api_resource r filters
      ok (some filtered)
