-- ===== src/Handler/Persistence.antt =====
-- What a handler that fails has stored.
use t3api.Base.{ap, ◌≡◌, refl, none, some, ◌∷◌}
use t3api.Exception.{Throwable}
use t3api.Result.{ok, thrown}
use t3api.Php.{Fields}
use t3api.Http.{Request, Messages}
use t3api.Domain.Operation.{Operation}
use t3api.Runtime.{History, Platform, State, Exec, ◌>>◌, persisted}
use t3api.Runtime.Durable.{trace}
use t3api.Runtime.Laws.{
  persists, KeepsIfThrown, KeepsIfThrown-Keeps, KeepsIfThrown-bind, KeepsIfThrown-total,
  keeps_rules,
}
use t3api.Repository.{get_instance_for_operation}
use t3api.Handler.{
  handle_item_patch, handle_item_put, handle_item_delete, persist_all, handle_collection_post,
  handle,
}
use t3api.Handler.Support.{
  nothing, entity, Handler, options, file_upload, collection_get, collection_post,
  collection_method_not_allowed, item_get, item_put, item_patch, item_delete,
  item_method_not_allowed, Settings,
}
use t3api.Handler.Quiet.{
  deserialize_operation-Quiet, handle_collection-Quiet, validate_object-Quiet, handle_item-Quiet,
  handle-Quiet, update-Quiet, remove-Quiet, add-Quiet,
}

module _ (http : Messages) (platform : Platform) (c : Settings) where
  open http use {Response}

  abbrev pub Clean : {A : Type 0} → Exec Response A → Type 0
  Clean m = KeepsIfThrown trace m

  module _ (stores : (h : History) → platform.perform h persisted ≡ ok tt) where
    persist_and_return-Clean :
        {A : Type 0} (m : Exec Response A)
        → ((s : State Response) → (a : A) × ((m s).0 ≡ ok a))
        → Clean (persist_all http platform >> m)
    persist_and_return-Clean m total =
        KeepsIfThrown-total (persist_all http platform >> m)
          λ s. rw (stores s.history) (total (record s { history = persisted ∷ s.history }))

    handle_collection_post-Clean :
        (o : Operation) (request : Request) → Clean (handle_collection_post http platform o request)
    unfolding handle_collection_post
    handle_collection_post-Clean o request =
        KeepsIfThrown-bind _ _ (handle_collection-Quiet http platform c o) λ u.
          KeepsIfThrown-bind _ _ (deserialize_operation-Quiet http platform c o request none) λ x.
            KeepsIfThrown-bind _ _ (validate_object-Quiet http platform c x) λ v.
              KeepsIfThrown-bind _ _
                (add-Quiet http platform c (get_instance_for_operation platform.descendants o) x)
                λ a. persist_and_return-Clean _ (λ s. (entity x, refl))

    handle_item_patch-Clean :
        (o : Operation) (request : Request) (route : Fields)
        → Clean (handle_item_patch http platform o request route)
    unfolding handle_item_patch
    handle_item_patch-Clean o request route =
        KeepsIfThrown-bind _ _ (handle_item-Quiet http platform c o route) λ x.
          KeepsIfThrown-bind _ _ (deserialize_operation-Quiet http platform c o request (some x))
            λ y. KeepsIfThrown-bind _ _ (validate_object-Quiet http platform c x) λ v.
              KeepsIfThrown-bind _ _ (update-Quiet http platform c x)
                λ a. persist_and_return-Clean _ (λ s. (entity x, refl))

    handle_item_put-Clean :
        (o : Operation) (request : Request) (route : Fields)
        → Clean (handle_item_put http platform o request route)
    unfolding handle_item_put
    handle_item_put-Clean o request route =
        KeepsIfThrown-bind _ _ (handle_item-Quiet http platform c o route) λ x.
          KeepsIfThrown-bind _ _ (search keeps_rules) λ w.
            KeepsIfThrown-bind _ _ (deserialize_operation-Quiet http platform c o request (some x))
              λ y. KeepsIfThrown-bind _ _ (validate_object-Quiet http platform c x) λ v.
                KeepsIfThrown-bind _ _
                  (add-Quiet http platform c (get_instance_for_operation platform.descendants o) x)
                  λ a. persist_and_return-Clean _ (λ s. (entity x, refl))

    handle_item_delete-Clean :
        (o : Operation) (route : Fields) → Clean (handle_item_delete http platform o route)
    unfolding handle_item_delete
    handle_item_delete-Clean o route =
        KeepsIfThrown-bind _ _ (handle_item-Quiet http platform c o route) λ x.
          KeepsIfThrown-bind _ _ (remove-Quiet http platform c x)
            λ a. persist_and_return-Clean _ (λ s. (nothing, refl))

    pub handle-Clean :
        (h : Handler) (o : Operation) (request : Request) (route : Fields)
        → Clean (handle http platform c h o request route)
    unfolding handle
    handle-Clean collection_post o request route = handle_collection_post-Clean o request
    handle-Clean item_put o request route = handle_item_put-Clean o request route
    handle-Clean item_patch o request route = handle_item_patch-Clean o request route
    handle-Clean item_delete o request route = handle_item_delete-Clean o route
    handle-Clean options o request route =
        KeepsIfThrown-Keeps _ (handle-Quiet http platform c options o request route refl)
    handle-Clean file_upload o request route =
        KeepsIfThrown-Keeps _ (handle-Quiet http platform c file_upload o request route refl)
    handle-Clean collection_get o request route =
        KeepsIfThrown-Keeps _ (handle-Quiet http platform c collection_get o request route refl)
    handle-Clean collection_method_not_allowed o request route =
        KeepsIfThrown-Keeps _
          (handle-Quiet http platform c collection_method_not_allowed o request route refl)
    handle-Clean item_get o request route =
        KeepsIfThrown-Keeps _ (handle-Quiet http platform c item_get o request route refl)
    handle-Clean item_method_not_allowed o request route =
        KeepsIfThrown-Keeps _
          (handle-Quiet http platform c item_method_not_allowed o request route refl)

  -- Where storing itself does not fail, a handler that throws, whichever it is and for whatever reason,
  -- has not called `persistAll`.
  pub handle_throws_unpersisted :
      (h : Handler) (o : Operation) (request : Request) (route : Fields) (s : State Response)
      (e : Throwable)
      → ((k : History) → platform.perform k persisted ≡ ok tt)
      → (handle http platform c h o request route s).0 ≡ thrown e
      → persists ((handle http platform c h o request route s).1).history ≡ persists s.history
  handle_throws_unpersisted h o request route s e stores thrown_e =
      ap (λ t. t.0) ((handle-Clean stores h o request route).at_throw s e thrown_e)
