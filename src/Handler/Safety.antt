-- ===== src/Handler/Safety.antt =====
-- Requests to which the access checks refuse access.
use t3api.Base.{◌≡◌, refl, Bool, true, false, some, [], ◌∷◌}
use t3api.Exception.{api, operation_not_allowed}
use t3api.Result.{ok, thrown}
use t3api.Php.{Fields}
use t3api.Http.{Request, Messages}
use t3api.Domain.Operation.{Operation}
use t3api.Runtime.{Ref, History, Call, Platform, State, object, looked_up}
use t3api.Runtime.Laws.{is_change, changes}
use t3api.Access.{is_granted}
use t3api.Access.Keeps.{is_granted-Keeps}
use t3api.Repository.{get_instance_for_operation, find_by_uid}
use t3api.Handler.{
  handle_file_upload, handle_collection_post, handle_collection_get, handle_item_delete,
  handle_item_patch, handle_item_put, handle_item_get, handle, route_id, handle_item,
  handle_collection,
}
use t3api.Handler.Support.{
  Handler, file_upload, collection_get, collection_post, item_get, item_put, item_patch,
  item_delete, Settings,
}

-- the handlers of single objects and of collections that check access
abbrev pub of_item : Handler → Bool
of_item item_get = true
of_item item_put = true
of_item item_patch = true
of_item item_delete = true
of_item _ = false

abbrev pub of_collection : Handler → Bool
of_collection collection_get = true
of_collection collection_post = true
of_collection file_upload = true
of_collection _ = false

module _ (http : Messages) (platform : Platform) (c : Settings) where
  open http use {Response}

  changes-reads : (k : Call) (h : History) → is_change k ≡ false → changes (k ∷ h) ≡ changes h
  changes-reads k h e = rw e refl

  -- the state after the lookup of the object of an item operation
  abbrev pub after_lookup : Operation → Fields → State Response → State Response
  after_lookup o route s = record s { history = looked_up (route_id route) o.entity ∷ s.history }

  module _ (o : Operation) (request : Request) (route : Fields) (s : State Response) (x : Ref)
      (found : platform.get_object s.history (route_id route) o.entity ≡ some x)
      (denied : (is_granted platform o (("object", object x) ∷ []) (after_lookup o route s)).0
        ≡ ok false) where
    abbrev after_denial : State Response
    after_denial = (is_granted platform o (("object", object x) ∷ []) (after_lookup o route s)).1

    handle_item-denied :
        handle_item http platform o route s
        ≡ (thrown (api (operation_not_allowed 1574411504130)), after_denial)
    unfolding handle_item t3api.Php.get get_instance_for_operation
    handle_item-denied = rw (handle_item, find_by_uid, found, denied) refl

    changes-after_denial : changes after_denial.history ≡ changes s.history
    changes-after_denial =
        (is_granted-Keeps platform changes-reads o (("object", object x) ∷ [])).at
          (after_lookup o route s)

  -- Where the access check of an item operation refuses the object that was found, each of the four
  -- handlers ends with the exception for that, and no object has been changed and nothing stored.
  pub handle_item_denied :
      (h : Handler) (o : Operation) (request : Request) (route : Fields) (s : State Response)
      (x : Ref)
      → of_item h ≡ true
      → platform.get_object s.history (route_id route) o.entity ≡ some x
      → (is_granted platform o (("object", object x) ∷ []) (after_lookup o route s)).0 ≡ ok false
      → ((handle http platform c h o request route s).0
          ≡ thrown (api (operation_not_allowed 1574411504130)))
        × (changes ((handle http platform c h o request route s).1).history ≡ changes s.history)
  unfolding handle handle_item
  handle_item_denied item_get o request route s x e found denied =
      rw (handle_item-denied o request route s x found denied, handle_item_get)
        (refl, changes-after_denial o request route s x found denied)
  handle_item_denied item_put o request route s x e found denied =
      rw (handle_item-denied o request route s x found denied, handle_item_put)
        (refl, changes-after_denial o request route s x found denied)
  handle_item_denied item_patch o request route s x e found denied =
      rw (handle_item-denied o request route s x found denied, handle_item_patch)
        (refl, changes-after_denial o request route s x found denied)
  handle_item_denied item_delete o request route s x e found denied =
      rw (handle_item-denied o request route s x found denied, handle_item_delete)
        (refl, changes-after_denial o request route s x found denied)
  handle_item_denied _ o request route s x e found denied = cc

  module _ (o : Operation) (s : State Response)
      (denied : (is_granted {R = Response} platform o [] s).0 ≡ ok false) where
    handle_collection-denied :
        handle_collection http platform o s
        ≡ (thrown (api (operation_not_allowed 1574416639472)), (is_granted platform o [] s).1)
    unfolding handle_collection
    handle_collection-denied = rw (handle_collection, denied) refl

    changes-after_collection_denial :
        changes ((is_granted {R = Response} platform o [] s).1).history ≡ changes s.history
    changes-after_collection_denial = (is_granted-Keeps platform changes-reads o []).at s

  -- Where the access check of a collection operation refuses, its three handlers end with the exception
  -- for that, and no object has been changed and nothing stored.
  pub handle_collection_denied :
      (h : Handler) (o : Operation) (request : Request) (route : Fields) (s : State Response)
      → of_collection h ≡ true
      → (is_granted {R = Response} platform o [] s).0 ≡ ok false
      → ((handle http platform c h o request route s).0
          ≡ thrown (api (operation_not_allowed 1574416639472)))
        × (changes ((handle http platform c h o request route s).1).history ≡ changes s.history)
  unfolding handle
  handle_collection_denied collection_get o request route s e denied =
      rw (handle_collection-denied o s denied, handle_collection_get)
        (refl, changes-after_collection_denial o s denied)
  handle_collection_denied collection_post o request route s e denied =
      rw (handle_collection-denied o s denied, handle_collection_post)
        (refl, changes-after_collection_denial o s denied)
  handle_collection_denied file_upload o request route s e denied =
      rw (handle_collection-denied o s denied, handle_file_upload)
        (refl, changes-after_collection_denial o s denied)
  handle_collection_denied _ o request route s e denied = cc
