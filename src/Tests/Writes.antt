-- ===== src/Tests/Writes.antt =====
-- Tests of what the handlers make durable.
use t3api.Base.{false, some, [], ◌∷◌, ◌≡◌, refl, ◌++◌}
use t3api.Http.{plain_messages}
use t3api.Runtime.Durable.{durable, modified, deleted}
use t3api.Result.{ok}
use t3api.Domain.Operation.{Operation, item}
use t3api.Runtime.{Ref, persisted, added, updated, deserialized, reset_properties}
use t3api.Runtime.Laws.{changes}
use t3api.Handler.{handle, handle_item_patch, handle_item_put, validate_object}
use t3api.Handler.Steps.{find, Granted, placed, repository}
use t3api.Handler.Updates.{
  read_into, opened, reset, handle_item_patch_returns, handle_item_put_returns,
}
use t3api.Handler.Support.{item_patch, entity}
use t3api.Tests.Handlers.{route}
use t3api.Tests.Samples.{operation, platform, settings, get_request, fresh}

abbrev open_patch : Operation
open_patch = operation "PATCH" "" item

abbrev open_put : Operation
open_put = operation "PUT" "" item

-- the file reference 7 is replaced while the request is read
durable_test :
    durable
      ((handle plain_messages platform settings item_patch open_patch get_request route fresh).1
        ).history
    ≡ modified 70 ∷ deleted 7 ∷ []
unfolding handle t3api.Php.get t3api.Php.to_int
durable_test = refl

patch-returns :
    (handle_item_patch plain_messages platform open_patch get_request route fresh).0
    ≡ ok (entity 70)
unfolding handle_item_patch t3api.Php.get t3api.Php.to_int
patch-returns = refl

handle_item_patch_returns_example :
    (x : Ref) × ((find plain_messages platform open_patch route fresh).0 ≡ ok (some x))
    × Granted plain_messages platform open_patch x
        (find plain_messages platform open_patch route fresh).1
    × (entity 70 ≡ entity x)
    × (platform.has_errors
          (read_into plain_messages platform open_patch get_request route fresh x
            (opened plain_messages platform open_patch get_request route fresh)).history
          x
        ≡ false)
    × (changes
          ((handle_item_patch plain_messages platform open_patch get_request route fresh).1).history
        ≡ persisted ∷ updated x ∷ deserialized (some x) (7 ∷ []) ∷ changes fresh.history)
handle_item_patch_returns_example =
    handle_item_patch_returns plain_messages platform open_patch get_request route fresh (entity 70)
      patch-returns

put-returns :
    (handle_item_put plain_messages platform open_put get_request route fresh).0 ≡ ok (entity 70)
unfolding handle_item_put t3api.Repository.get_instance_for_operation t3api.Php.get t3api.Php.to_int
put-returns = refl

handle_item_put_returns_example :
    (x : Ref) × ((find plain_messages platform open_put route fresh).0 ≡ ok (some x))
    × Granted plain_messages platform open_put x
        (find plain_messages platform open_put route fresh).1
    × (entity 70 ≡ entity x)
    × (platform.has_errors
          (read_into plain_messages platform open_put get_request route fresh x
            (reset plain_messages platform open_put get_request route fresh x)).history
          x
        ≡ false)
    × (changes
          ((handle_item_put plain_messages platform open_put get_request route fresh).1).history
        ≡ persisted
            ∷ added x
            ∷ placed plain_messages platform (repository plain_messages platform open_put) x (
                platform.get_pid
                  (validate_object plain_messages platform x (
                    read_into plain_messages platform open_put get_request route fresh x
                      (reset plain_messages platform open_put get_request route fresh x))).1.history
                  x)
          ++ deserialized (some x) (7 ∷ []) ∷ reset_properties x ∷ changes fresh.history)
handle_item_put_returns_example =
    handle_item_put_returns plain_messages platform open_put get_request route fresh (entity 70)
      put-returns
