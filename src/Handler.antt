-- ===== src/Handler.antt =====
-- Classes/OperationHandler: the handlers of item and collection operations. The handler of OPTIONS
-- requests is in Cors.
pub mod Support
pub mod Safety
pub mod Quiet
pub mod Persistence
pub mod Steps
pub mod Effects
pub mod Updates
pub mod Refinement
use t3api.Base.{
  ℕ, String, Bool, true, false, not, ◌&&◌, ◌||◌, Option, none, some, List, [], ◌∷◌, ◌==◌,
  if◌then◌else◌,
}
use t3api.Base.Int.{ℤ}
use t3api.Exception.{
  Throwable, api, operation_not_allowed, resource_not_found, method_not_allowed, validation_failed,
  type_error, invalid_argument,
}
use t3api.Result.{Result, ok, thrown}
use t3api.Php.{Value, Fields, get, to_int}
use t3api.Http.{Request, Messages, standard}
use t3api.Cors.{CorsOptions}
use t3api.Cors.Preflight.{handle_options}
use t3api.Domain.Filter.{ApiFilter, CustomClasses}
use t3api.Domain.Operation.{Kind, Operation, item, collection, is_method}
use t3api.Query.{Query}
use t3api.Filter.{Database}
use t3api.Runtime.{
  Ref, Variable, object, Variables, Platform, State, Exec, Call, deserialized, after_deserialize,
  validated, reset_properties, persisted, uploaded, pure, throw, lift, ask, ◌>>=◌, ◌>>◌,
}
use t3api.Access.{is_granted, is_granted_post_denormalize}
use t3api.Repository.{
  Repository, get_instance_for_operation, find_by_uid, find_filtered, add, remove, update, call,
}
use Support.{
  Outcome, nothing, entity, members, text, Handler, options, file_upload, collection_get,
  collection_post, collection_method_not_allowed, item_get, item_put, item_patch, item_delete,
  item_method_not_allowed, is_collection, Settings, supports,
}

abbrev filters_of : Operation → List ApiFilter
filters_of o = elim o.kind [ item ↦ [] | collection _ fs ↦ fs ]

-- `(int)$route['id']`
abbrev pub route_id : Fields → ℤ
route_id route = elim (get "id" route) [ none ↦ to_int Value.null | some v ↦ to_int v ]

module _ (http : Messages) (platform : Platform) where
  open http use {Response, with_status}
  open platform use {descendants}

  abbrev pub E : Type 0 → Type 0
  E A = Exec Response A

  -- `if (!…) throw new OperationNotAllowedException($operation, $code)`
  abbrev pub require : Bool → ℕ → E (Unit {0})
  require true code = pure tt
  require false code = throw (api (operation_not_allowed code))

  -- `SerializerService::deserialize` with the context of an operation
  abbrev pub read_object : Operation → Request → Option Ref → E Ref
  read_object o request target s = (
    platform.deserialize s.history o request target,
    record s {
      history = deserialized target (platform.replaced s.history o request target) ∷ s.history;
    },
  )

  -- `deserializeOperation`
  unfoldable pub deserialize_operation : Operation → Request → Option Ref → E Ref
  unfolding is_granted_post_denormalize
  deserialize_operation o request target = do
    x ← read_object o request target
    granted ← is_granted_post_denormalize platform o (("object", object x) ∷ [])
    require granted 1574782843388
    ask (after_deserialize x) (λ h. platform.deserialized_object h x)

  -- `ValidationService::validateObject`
  unfoldable pub validate_object : Ref → E (Unit {0})
  validate_object x = do
    errors ← ask (validated x) (λ h. ok (platform.has_errors h x))
    if errors then throw (api (validation_failed 1581461085077)) else pure tt

  -- `handle` of `AbstractCollectionOperationHandler`
  unfoldable pub handle_collection : Operation → E (Unit {0})
  unfolding is_granted
  handle_collection o = do granted ← is_granted platform o []; require granted 1574416639472

  abbrev pub found_or_throw : Operation → ℤ → Option Ref → E Ref
  found_or_throw o uid none = throw (api (resource_not_found o.entity uid 1581461016515))
  found_or_throw o uid (some x) = pure x

  -- `handle` of `AbstractItemOperationHandler`
  unfoldable pub handle_item : Operation → Fields → E Ref
  unfolding is_granted find_by_uid
  handle_item o route = do
    let repository = get_instance_for_operation descendants o
    found ← find_by_uid platform repository (route_id route)
    x ← found_or_throw o (route_id route) found
    granted ← is_granted platform o (("object", object x) ∷ [])
    require granted 1574411504130
    pure x

  -- `$response ? $response->withStatus(201) : $response`
  abbrev pub created : E (Unit {0})
  created s = (
    ok tt,
    record s {
      response = elim s.response [ none ↦ none | some r ↦ some (with_status 201 standard r) ];
    },
  )

  abbrev pub persist_all : E (Unit {0})
  persist_all = call platform persisted

  -- the check of `AbstractCollectionResponse` in `getCollectionResponseClass`
  abbrev pub require_class : Bool → E (Unit {0})
  require_class true = pure tt
  require_class false = throw (invalid_argument 0)

  unfoldable pub handle_collection_get : Settings → Operation → Request → E Outcome
  unfolding handle_collection find_filtered
  handle_collection_get c o request = do
    handle_collection o
    require_class c.collection_class_fits
    q ←
        find_filtered platform c.classes c.database (get_instance_for_operation descendants o)
          (filters_of o) request
    pure (members o q)

  unfoldable pub handle_collection_post : Operation → Request → E Outcome
  unfolding handle_collection deserialize_operation validate_object add
  handle_collection_post o request = do
    handle_collection o
    x ← deserialize_operation o request none
    validate_object x
    add platform (get_instance_for_operation descendants o) x
    persist_all
    created
    pure (entity x)

  unfoldable pub handle_file_upload : Operation → Request → E Outcome
  unfolding handle_collection
  handle_file_upload o request = do
    handle_collection o
    x ← ask uploaded (λ h. platform.upload h o request)
    created
    pure (entity x)

  unfoldable pub handle_item_get : Operation → Fields → E Outcome
  unfolding handle_item
  handle_item_get o route = do x ← handle_item o route; pure (entity x)

  -- The object that is deserialized is the one that was found, changed in place; what the listeners put
  -- in its stead is not used.
  unfoldable pub handle_item_patch : Operation → Request → Fields → E Outcome
  unfolding handle_item deserialize_operation validate_object update
  handle_item_patch o request route = do
    x ← handle_item o route
    deserialize_operation o request (some x)
    validate_object x
    update platform x
    persist_all
    pure (entity x)

  -- All properties but the uid get the values of a new object before the request is read.
  unfoldable pub handle_item_put : Operation → Request → Fields → E Outcome
  unfolding handle_item deserialize_operation validate_object add
  handle_item_put o request route = do
    x ← handle_item o route
    call platform (reset_properties x)
    deserialize_operation o request (some x)
    validate_object x
    add platform (get_instance_for_operation descendants o) x
    persist_all
    pure (entity x)

  unfoldable pub handle_item_delete : Operation → Fields → E Outcome
  unfolding handle_item remove
  handle_item_delete o route = do
    x ← handle_item o route
    remove platform x
    persist_all
    pure nothing

  abbrev pub text_or_nothing : Option String → Outcome
  text_or_nothing none = nothing
  text_or_nothing (some t) = text t

  abbrev pub outcome_of : Result (Option String) → Result Outcome
  outcome_of (ok t) = ok (text_or_nothing t)
  outcome_of (thrown e) = thrown e

  -- The handler of OPTIONS requests changes nothing but the response.
  abbrev pub run_options : Settings → Request → E Outcome
  run_options c request s =
      let (r, response) = handle_options http c.matches c.cors request s.response in
      (outcome_of r, record s { response = some response })

  -- `handle`, of the class of the handler
  unfoldable pub handle : Settings → Handler → Operation → Request → Fields → E Outcome
  unfolding handle_collection_get handle_collection_post handle_file_upload handle_item_get
      handle_item_patch handle_item_put handle_item_delete
  handle c options o request route = run_options c request
  handle c file_upload o request route = handle_file_upload o request
  handle c collection_get o request route = handle_collection_get c o request
  handle c collection_post o request route = handle_collection_post o request
  handle c collection_method_not_allowed o request route =
      throw (api (method_not_allowed 1581460954134))
  handle c item_get o request route = handle_item_get o route
  handle c item_put o request route = handle_item_put o request route
  handle c item_patch o request route = handle_item_patch o request route
  handle c item_delete o request route = handle_item_delete o route
  handle c item_method_not_allowed o request route = throw (api (method_not_allowed 1581494567091))
