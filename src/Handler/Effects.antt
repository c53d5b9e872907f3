-- ===== src/Handler/Effects.antt =====
-- What POST and DELETE requests that succeed have done.
use t3api.Base.{sym, ◌≡◌, true, false, none, some, [], ◌∷◌, ◌++◌, ap, ◌∙◌}
use t3api.Result.{ok-injective, ok}
use t3api.Http.{Request, Messages}
use t3api.Domain.Operation.{Operation}
use t3api.Runtime.{removed, Ref, Platform, State, Exec, ◌>>=◌, ◌>>◌, added, deserialized}
use t3api.Runtime.Laws.{changes, >>=-returns}
use t3api.Access.{is_granted}
use t3api.Repository.{remove, add}
use t3api.Handler.{
  handle_item, remove, pure, created, persisted, Fields, persist_all, handle_item_delete,
  handle_collection_post, handle_collection, deserialize_operation, validate_object,
}
use t3api.Handler.Support.{nothing, entity, Outcome}
use t3api.Handler.Steps.{
  handle_collection-Keeps, handle_item-Keeps, changes-deserialize, validate_object-returns, placed,
  add-returns, repository, handle_collection-returns, handle_item-returns, find, Granted,
}

module _ (http : Messages) (platform : Platform) where
  open http use {Response}

  -- the end of a DELETE request, and that from the removal on
  abbrev removal_done : Exec Response Outcome
  removal_done = do persist_all http platform; pure nothing

  abbrev remove_found : Ref → Exec Response Outcome
  remove_found x = do remove platform x; removal_done

  module _ (o : Operation) where
    -- `handle` of a POST request once the object is read
    abbrev store_new : Ref → Exec Response Outcome
    store_new x = do
      validate_object http platform x
      add platform (repository http platform o) x
      persist_all http platform
      created http platform
      pure (entity x)

    abbrev finish : Ref → Exec Response Outcome
    finish x = do persist_all http platform; created http platform; pure (entity x)

    store_new-returns :
        (x : Ref) (s : State Response) (out : Outcome)
        → (store_new x s).0 ≡ ok out
        → (out ≡ entity x)
          × (platform.has_errors s.history x ≡ false)
          × (changes ((store_new x s).1).history
              ≡ persisted
                  ∷ added x
                  ∷ placed http platform
                      (repository http platform o)
                      x
                      (platform.get_pid (validate_object http platform x s).1.history x)
                ++ changes s.history)
    store_new-returns x s out e =
        let (v, k₁, e₁, l₁) =
          >>=-returns (validate_object http platform x)
            (λ w. add platform (repository http platform o) x >> finish x) s out e in
        let (fine, kept) = validate_object-returns http platform x s v k₁ in
        let s₁ = (validate_object http platform x s).1 in
        let (a, k₂, e₂, l₂) =
          >>=-returns (add platform (repository http platform o) x) (λ w. finish x) s₁ out l₁ in
        let s₂ = (add platform (repository http platform o) x s₁).1 in
        let (p, k₃, e₃, l₃) =
          >>=-returns (persist_all http platform) (λ w. created http platform >> pure (entity x)) s₂
            out l₂ in
        (
          sym (ok-injective l₃),
          fine,
          ap (λ z. changes (z.1).history) (e₁ ∙ e₂ ∙ e₃)
              ∙ ap (λ z. persisted ∷ z)
                  (add-returns http platform (repository http platform o) x s₁ a k₂)
              ∙ ap
                  (λ z.
                    persisted
                      ∷ added x
                      ∷ placed http platform (repository http platform o) x
                          (platform.get_pid s₁.history x)
                    ++ z)
                  kept,
        )

    -- the states of a POST request: after the access check, after reading, after the validation
    module _ (request : Request) (s : State Response) where
      abbrev pub admitted : State Response
      admitted = (handle_collection http platform o s).1

      abbrev pub read : State Response
      read = (deserialize_operation http platform o request none admitted).1

      abbrev pub checked : Ref → State Response
      checked x = (validate_object http platform x read).1

    -- A POST request that succeeds was granted access, has read an object, which then had no errors, and
    -- answers with that object; it has put it on the main page if it was on none, added
    -- it and stored it, in this order and, apart from the file references removed in reading, with no other
    -- change.
    pub handle_collection_post_returns :
        (request : Request) (s : State Response) (out : Outcome)
        → (handle_collection_post http platform o request s).0 ≡ ok out
        → (x : Ref) × ((is_granted platform o [] s).0 ≡ ok true)
          × ((deserialize_operation http platform o request none (admitted request s)).0 ≡ ok x)
          × (out ≡ entity x)
          × (platform.has_errors (read request s).history x ≡ false)
          × (changes ((handle_collection_post http platform o request s).1).history
              ≡ persisted
                  ∷ added x
                  ∷ placed http platform
                      (repository http platform o)
                      x
                      (platform.get_pid (checked request s x).history x)
                ++ deserialized none (platform.replaced (admitted request s).history o request none)
                  ∷ changes s.history)
    unfolding handle_collection_post
    handle_collection_post_returns request s out e =
        let (u, k₁, e₁, l₁) =
          >>=-returns (handle_collection http platform o)
            (λ w. deserialize_operation http platform o request none >>= store_new) s out e in
        let s₁ = (handle_collection http platform o s).1 in
        let (x, k₂, e₂, l₂) =
          >>=-returns (deserialize_operation http platform o request none) store_new s₁ out l₁ in
        let s₂ = (deserialize_operation http platform o request none s₁).1 in
        let (same, fine, stored) = store_new-returns x s₂ out l₂ in
        (
          x,
          handle_collection-returns http platform o s u k₁,
          k₂,
          same,
          fine,
          ap (λ z. changes (z.1).history) (e₁ ∙ e₂)
              ∙ stored
              ∙ ap
                  (λ z.
                    persisted
                      ∷ added x
                      ∷ placed http platform (repository http platform o) x
                          (platform.get_pid (checked request s x).history x)
                    ++ z)
                  (changes-deserialize http platform o request none s₁
                    ∙ ap (λ z. deserialized none (platform.replaced s₁.history o request none) ∷ z)
                        ((handle_collection-Keeps http platform o).at s)),
        )

    -- A DELETE request that succeeds has found the object of its route, and access to it was granted; it has
    -- removed that object and stored that, with no other change, and answers with nothing.
    pub handle_item_delete_returns :
        (route : Fields) (s : State Response) (out : Outcome)
        → (handle_item_delete http platform o route s).0 ≡ ok out
        → (x : Ref) × ((find http platform o route s).0 ≡ ok (some x))
          × Granted http platform o x (find http platform o route s).1
          × (out ≡ nothing)
          × (changes ((handle_item_delete http platform o route s).1).history
              ≡ persisted ∷ removed x ∷ changes s.history)
    unfolding handle_item_delete remove
    handle_item_delete_returns route s out e =
        let (x, k₁, e₁, l₁) =
          >>=-returns (handle_item http platform o route) remove_found s out e in
        let s₁ = (handle_item http platform o route s).1 in
        let (a, k₂, e₂, l₂) = >>=-returns (remove platform x) (λ w. removal_done) s₁ out l₁ in
        let s₂ = (remove platform x s₁).1 in
        let (p, k₃, e₃, l₃) =
          >>=-returns (persist_all http platform) (λ w. pure nothing) s₂ out l₂ in
        let (found, granted) = handle_item-returns http platform o route s x k₁ in
        (
          x,
          found,
          granted,
          sym (ok-injective l₃),
          ap (λ z. changes (z.1).history) (e₁ ∙ e₂ ∙ e₃)
              ∙ ap (λ z. persisted ∷ removed x ∷ z)
                  ((handle_item-Keeps http platform o route).at s),
        )
