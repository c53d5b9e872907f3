-- ===== src/Tests/Requests.antt =====
-- Tests of whole requests.
use t3api.Base.{ℕ, String, ◌≡◌, refl, true, false, some, [], ◌∷◌}
use t3api.Result.{ok}
use t3api.Php.{str, Fields}
use t3api.Http.{plain_messages, PlainResponse}
use t3api.Domain.Operation.{Operation, item}
use t3api.Domain.Resource.{ApiResource, get_operation_by_route_name}
use t3api.Runtime.Laws.{changes}
use t3api.Access.{is_granted}
use t3api.Handler.Support.{collection_method_not_allowed, item_method_not_allowed, item_get}
use t3api.Dispatcher.{call_processors, bootstrap, get_handlers_supporting_operation}
use t3api.Dispatcher.Answers.{run}
use t3api.Dispatcher.Forbidden.{denied_item, Denied, prepared, bootstrap_forbids}
use t3api.Tests.Samples.{platform, settings, operation, get_request, surroundings, resource}

abbrev put_resource : ApiResource
put_resource = record resource { item_operations = operation "PUT" "" item ∷ [] }

abbrev guarded : Operation
guarded = operation "GET" "false" item

abbrev guarded_resource : ApiResource
guarded_resource = record resource { item_operations = guarded ∷ [] }

abbrev route : Fields
route = ("id", str "7") ∷ []

denied :
    Denied plain_messages platform settings
      (surroundings true)
      get_request
      item_get
      guarded
      route
      (prepared plain_messages platform settings
        (surroundings true)
        get_request
        (guarded_resource ∷ []))
      1574411504130
unfolding t3api.Php.get t3api.Php.to_int is_granted call_processors t3api.Base.Sort.sort
denied = denied_item refl 70 refl refl

bootstrap_forbids_example :
    (answered : PlainResponse) × (bootstrap plain_messages platform settings
        (surroundings true)
        (guarded_resource ∷ [])
        get_request
      ≡ ok (answered, "error"))
    × (answered.code ≡ 403)
    × (changes
          ((run plain_messages platform settings
              (surroundings true)
              (guarded_resource ∷ [])
              get_request).1
            ).history
        ≡ [])
unfolding get_operation_by_route_name get_handlers_supporting_operation t3api.Base.Sort.sort
bootstrap_forbids_example =
    bootstrap_forbids plain_messages platform settings (surroundings true) get_request [] []
      guarded_resource 0 route guarded item_get
      (collection_method_not_allowed ∷ item_method_not_allowed ∷ []) 1574411504130 "error" refl refl
      tt refl refl refl denied refl refl
