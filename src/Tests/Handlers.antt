-- ===== src/Tests/Handlers.antt =====
-- Tests of the handlers and the access checks.
use t3api.Base.{true, ◌≡◌, ◌≢◌, refl, false, none, some, [], ◌∷◌, ◌++◌}
use t3api.Exception.{api, operation_not_allowed}
use t3api.Result.{ok, thrown}
use t3api.Php.{Value, bool, str, Fields}
use t3api.Http.{plain_messages}
use t3api.Domain.Operation.{Operation, item, collection}
use t3api.Runtime.{
  Ref, object, deserialized, persisted, removed, added, before_post_denormalize_access,
}
use t3api.Runtime.Laws.{changes, persists}
use t3api.Access.{is_granted, is_granted_post_denormalize}
use t3api.Access.Laws.{later, first_variables, is_granted_post_denormalize_stale, verdict}
use t3api.Handler.{deserialize_operation, handle, handle_item_delete, handle_collection_post}
use t3api.Handler.Support.{entity, nothing, collection_post}
use t3api.Handler.Persistence.{handle_throws_unpersisted}
use t3api.Handler.Steps.{Granted, find, placed, repository}
use t3api.Handler.Effects.{
  checked, checked, read, admitted, handle_collection_post_returns, handle_item_delete_returns,
}
use t3api.Tests.Samples.{differ, platform, settings, operation, get_request, fresh, pagination}

abbrev pub route : Fields
route = ("id", str "7") ∷ []

abbrev closed : Operation
closed = operation "POST" "false" (collection pagination [])

abbrev pub open_post : Operation
open_post = operation "POST" "" (collection pagination [])

abbrev open_delete : Operation
open_delete = operation "DELETE" "" item

closed-throws :
    (handle plain_messages platform settings collection_post closed get_request route fresh).0
    ≡ thrown (api (operation_not_allowed 1574416639472))
unfolding handle
closed-throws = refl

handle_throws_unpersisted_example :
    persists
      ((handle plain_messages platform settings collection_post closed get_request route fresh).1
        ).history
    ≡ persists fresh.history
handle_throws_unpersisted_example =
    handle_throws_unpersisted plain_messages platform settings collection_post closed get_request
      route fresh (api (operation_not_allowed 1574416639472)) (λ k. refl) closed-throws

open_post-returns :
    (handle_collection_post plain_messages platform open_post get_request fresh).0 ≡ ok (entity 99)
unfolding handle_collection_post t3api.Repository.get_instance_for_operation
open_post-returns = refl

handle_collection_post_returns_example :
    (x : Ref) × ((is_granted platform open_post [] fresh).0 ≡ ok true)
    × ((deserialize_operation plain_messages platform open_post get_request none
          (admitted plain_messages platform open_post get_request fresh)).0
        ≡ ok x)
    × (entity 99 ≡ entity x)
    × (platform.has_errors (read plain_messages platform open_post get_request fresh).history x
        ≡ false)
    × (changes
          ((handle_collection_post plain_messages platform open_post get_request fresh).1).history
        ≡ persisted
            ∷ added x
            ∷ placed plain_messages platform (repository plain_messages platform open_post) x (
                platform.get_pid
                  (checked plain_messages platform open_post get_request fresh x).history
                  x)
          ++ deserialized none (7 ∷ []) ∷ changes fresh.history)
handle_collection_post_returns_example =
    handle_collection_post_returns plain_messages platform open_post get_request fresh (entity 99)
      open_post-returns

open_delete-returns :
    (handle_item_delete plain_messages platform open_delete route fresh).0 ≡ ok nothing
unfolding handle_item_delete t3api.Php.get t3api.Php.to_int
open_delete-returns = refl

handle_item_delete_returns_example :
    (x : Ref) × ((find plain_messages platform open_delete route fresh).0 ≡ ok (some x))
    × Granted plain_messages platform open_delete x
        (find plain_messages platform open_delete route fresh).1
    × (nothing ≡ nothing)
    × (changes ((handle_item_delete plain_messages platform open_delete route fresh).1).history
        ≡ persisted ∷ removed x ∷ changes fresh.history)
handle_item_delete_returns_example =
    handle_item_delete_returns plain_messages platform open_delete route fresh nothing
      open_delete-returns

abbrev secured : Operation
secured = record (operation "POST" "true" item) { security_post_denormalize = "object.owner" }

secured-given : secured.security ≢ ""
secured-given = differ "true" "" refl

secured_after-given : secured.security_post_denormalize ≢ ""
secured_after-given = differ "object.owner" "" refl

is_granted_post_denormalize_stale_example :
    (is_granted_post_denormalize platform secured
      (("object", object 99) ∷ [])
      (later platform secured [] [] fresh (deserialized none [] ∷ []))).0
    ≡ verdict platform
        (before_post_denormalize_access secured ∷ deserialized none [] ∷ [])
        "object.owner"
        (first_variables platform secured [] [] fresh)
is_granted_post_denormalize_stale_example =
    is_granted_post_denormalize_stale platform secured [] [] fresh (deserialized none [] ∷ [])
      (("object", object 99) ∷ []) (("object", object 99) ∷ []) secured-given secured_after-given
      refl refl refl
