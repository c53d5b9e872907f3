-- ===== src/Tests/Dispatching.antt =====
-- Tests of the dispatcher.
use t3api.Base.{
  ℕ, String, ◌≡◌, ◌≢◌, refl, Bool, true, false, none, some, List, [], ◌∷◌, ◌++◌, arith, map, keep,
}
use t3api.Base.Sort.{IsSorted}
use t3api.Exception.{Throwable, runtime, foreign}
use t3api.Result.{ok, thrown}
use t3api.Php.{str, Fields}
use t3api.Http.{plain_messages, PlainResponse}
use t3api.Domain.Operation.{Operation, item, collection}
use t3api.Dispatcher.{Surroundings, get_handlers_supporting_operation, process_operation, bootstrap}
use t3api.Dispatcher.Selection.{chosen, expected, chosen-get_handlers}
use t3api.Dispatcher.Routing.{process_operation_of_collection}
use t3api.Dispatcher.Answers.{
  run, responded, status_for, thrown_out, bootstrap_answer, bootstrap_throws,
}
use t3api.Tests.Samples.{
  differ, platform, settings, operation, get_request, fresh, pagination, surroundings, resource,
}

chosen-get_handlers_example :
    chosen (
      get_handlers_supporting_operation settings
        (surroundings true)
        (operation "GET" "" item)
        get_request)
    ≡ expected settings (operation "GET" "" item) get_request
chosen-get_handlers_example =
    chosen-get_handlers settings (surroundings true) (operation "GET" "" item) get_request refl

abbrev route : Fields
route = ("id", str "7") ∷ []

abbrev put_collection : Operation
put_collection = operation "PUT" "" (collection pagination [])

process_operation_of_collection_example :
    process_operation plain_messages platform settings
      (surroundings true)
      put_collection
      route
      get_request
      fresh
    ≡ (thrown (runtime 1557506987081), fresh)
process_operation_of_collection_example =
    process_operation_of_collection plain_messages platform settings (surroundings true) get_request
      put_collection route fresh refl refl (differ "GET" "OPTIONS" refl) (differ "PUT" "GET" refl)
      (differ "PUT" "POST" refl)

abbrev not_found : PlainResponse
not_found = record { code = 404; fields = ("content-type", "application/ld+json") ∷ [] }

answered :
    bootstrap plain_messages platform settings (surroundings false) (resource ∷ []) get_request
    ≡ ok (not_found, "error")
unfolding bootstrap t3api.Base.Sort.sort t3api.Http.get_header t3api.Base.Text.strtolower
answered = refl

bootstrap_answer_example :
    (plain_messages.status not_found
      ≡ status_for
          (run plain_messages platform settings (surroundings false) (resource ∷ []) get_request).0
          (plain_messages.status (
            responded plain_messages platform settings
              (surroundings false)
              (resource ∷ [])
              get_request)))
    × ((m : String)
        → plain_messages.header m not_found
          ≡ plain_messages.header m (
              responded plain_messages platform settings
                (surroundings false)
                (resource ∷ [])
                get_request))
bootstrap_answer_example =
    bootstrap_answer plain_messages platform settings (surroundings false) (resource ∷ [])
      get_request not_found "error" answered

-- surroundings in which nothing can be serialized
abbrev mute : Surroundings
mute = record (surroundings false) { serialize_throwable = λ h e. thrown (foreign 1) }

lost :
    bootstrap plain_messages platform settings mute (resource ∷ []) get_request ≡ thrown (foreign 1)
unfolding bootstrap t3api.Base.Sort.sort
lost = refl

bootstrap_throws_example :
    (e f : Throwable) × ((run plain_messages platform settings mute (resource ∷ []) get_request).0
      ≡ thrown e)
    × (mute.serialize_throwable
          ((run plain_messages platform settings mute (resource ∷ []) get_request).1).history
          e
        ≡ thrown f)
    × (foreign 1 ≡ thrown_out e f)
bootstrap_throws_example =
    bootstrap_throws plain_messages platform settings mute (resource ∷ []) get_request (foreign 1)
      lost
