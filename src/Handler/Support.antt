-- ===== src/Handler/Support.antt =====
-- Classes/OperationHandler: the handler classes, what each supports, and what a handler gives back.
use t3api.Base.{String, Bool, true, false, not, ◌&&◌, ◌==◌}
use t3api.Http.{Request}
use t3api.Cors.{CorsOptions}
use t3api.Domain.Filter.{CustomClasses}
use t3api.Domain.Operation.{Kind, Operation, item, collection, is_method}
use t3api.Query.{Query}
use t3api.Filter.{Database}
use t3api.Runtime.{Ref}

-- What a handler gives back: nothing, a domain object, a collection response over a query, or the text
-- that refuses a header.
pub data Outcome : Type 0 where
  nothing : Outcome
  entity : Ref → Outcome
  members : Operation → Query → Outcome
  text : String → Outcome

-- The handler classes.
pub data Handler : Type 0 where
  options : Handler
  file_upload : Handler
  collection_get : Handler
  collection_post : Handler
  collection_method_not_allowed : Handler
  item_get : Handler
  item_put : Handler
  item_patch : Handler
  item_delete : Handler
  item_method_not_allowed : Handler

abbrev has_collection_class : Kind → Bool
has_collection_class item = false
has_collection_class (collection p fs) = true

-- `$operation instanceof CollectionOperation`
abbrev pub is_collection : Operation → Bool
is_collection o = has_collection_class o.kind

-- The parts of the configuration and of the class table that handlers read.
pub record Settings : Type 0 where
  pub classes : CustomClasses
  pub database : Database
  pub cors : CorsOptions
  -- `preg_match`
  pub matches : String → String → Bool
  -- whether an entity extends the class `File` of the extension
  pub is_file : String → Bool
  -- whether the configured response class extends `AbstractCollectionResponse`
  pub collection_class_fits : Bool

-- `supports`. Both handlers for methods that are not allowed extend the abstract item handler.
unfoldable pub supports : Settings → Handler → Operation → Request → Bool
supports c options o request = request.method == "OPTIONS"
supports c file_upload o request = is_collection o && is_method "POST" o && c.is_file o.entity
supports c collection_get o request = is_collection o && is_method "GET" o
supports c collection_post o request = is_collection o && is_method "POST" o
supports c collection_method_not_allowed o request = not (is_collection o)
supports c item_get o request = not (is_collection o) && is_method "GET" o
supports c item_put o request = not (is_collection o) && is_method "PUT" o
supports c item_patch o request = not (is_collection o) && is_method "PATCH" o
supports c item_delete o request = not (is_collection o) && is_method "DELETE" o
supports c item_method_not_allowed o request = not (is_collection o)
