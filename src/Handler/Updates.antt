-- ===== src/Handler/Updates.antt =====
-- What PUT and PATCH requests that succeed have done.
use t3api.Base.{◌≡◌, sym, ap, ◌∙◌, false, some, ◌∷◌, ◌++◌}
use t3api.Result.{ok, ok-injective}
use t3api.Php.{Fields}
use t3api.Http.{Request, Messages}
use t3api.Domain.Operation.{Operation}
use t3api.Runtime.{
  Ref, Platform, State, Exec, ◌>>◌, pure, persisted, added, updated, deserialized, reset_properties,
}
use t3api.Runtime.Laws.{changes, >>=-returns}
use t3api.Repository.{add, update, call}
use t3api.Handler.{
  handle_item, deserialize_operation, validate_object, persist_all, handle_item_patch,
  handle_item_put,
}
use t3api.Handler.Support.{Outcome, entity}
use t3api.Handler.Steps.{
  handle_item-Keeps, changes-deserialize, validate_object-returns, add-returns, placed, repository,
  handle_item-returns, find, Granted,
}

module _ (http : Messages) (platform : Platform) (o : Operation) where
  open http use {Response}

  -- the end of a PUT request, from the persistence on, from the addition on, and from validation on
  abbrev answer_with : Ref → Exec Response Outcome
  answer_with x = do persist_all http platform; pure (entity x)

  abbrev add_again : Ref → Exec Response Outcome
  add_again x = do add platform (repository http platform o) x; answer_with x

  abbrev change : Ref → Exec Response Outcome
  change x = do update platform x; answer_with x

  -- the states of a request to an item: after it was found, and after it was reset
  module _ (request : Request) (route : Fields) (s : State Response) where
    abbrev pub opened : State Response
    opened = (handle_item http platform o route s).1

    abbrev pub reset : Ref → State Response
    reset x = (call platform (reset_properties x) opened).1

    -- after the request was read in one of these
    abbrev pub read_into : Ref → State Response → State Response
    read_into x t = (deserialize_operation http platform o request (some x) t).1

  -- A PUT request that succeeds has found the object of its route, and access to it was granted; it has reset the object, read
  -- the request into it, found no errors, put it on the main page if it was on none, added and stored it,
  -- with no other change but the file references removed in
  -- reading, and answers with the object.
  pub handle_item_put_returns :
      (request : Request) (route : Fields) (s : State Response) (out : Outcome)
      → (handle_item_put http platform o request route s).0 ≡ ok out
      → (x : Ref) × ((find http platform o route s).0 ≡ ok (some x))
        × Granted http platform o x (find http platform o route s).1
        × (out ≡ entity x)
        × (platform.has_errors (read_into request route s x (reset request route s x)).history x
            ≡ false)
        × (changes ((handle_item_put http platform o request route s).1).history
            ≡ persisted
                ∷ added x
                ∷ placed http platform (repository http platform o) x (
                    platform.get_pid
                      (validate_object http platform x
                        (read_into request route s x (reset request route s x))).1.history
                      x)
              ++ deserialized
                  (some x)
                  (platform.replaced (reset request route s x).history o request (some x))
                ∷ reset_properties x
                ∷ changes s.history)
  unfolding handle_item_put
  handle_item_put_returns request route s out e =
      let (x, k₁, e₁, l₁) =
        >>=-returns (handle_item http platform o route)
          (λ x.
            call platform (reset_properties x)
            >> (deserialize_operation http platform o request (some x)
                >> (validate_object http platform x >> add_again x)))
          s out e in
      let s₁ = (handle_item http platform o route s).1 in
      let (a, k₂, e₂, l₂) =
        >>=-returns (call platform (reset_properties x))
          (λ w.
            deserialize_operation http platform o request (some x)
            >> (validate_object http platform x >> add_again x))
          s₁ out l₁ in
      let s₂ = (call platform (reset_properties x) s₁).1 in
      let (y, k₃, e₃, l₃) =
        >>=-returns (deserialize_operation http platform o request (some x))
          (λ w. validate_object http platform x >> add_again x) s₂ out l₂ in
      let s₃ = (deserialize_operation http platform o request (some x) s₂).1 in
      let (v, k₄, e₄, l₄) =
        >>=-returns (validate_object http platform x) (λ w. add_again x) s₃ out l₃ in
      let (fine, kept) = validate_object-returns http platform x s₃ v k₄ in
      let s₄ = (validate_object http platform x s₃).1 in
      let (b, k₅, e₅, l₅) =
        >>=-returns (add platform (repository http platform o) x) (λ w. answer_with x) s₄ out l₄ in
      let s₅ = (add platform (repository http platform o) x s₄).1 in
      let (p, k₆, e₆, l₆) =
        >>=-returns (persist_all http platform) (λ w. pure (entity x)) s₅ out l₅ in
      let (found, granted) = handle_item-returns http platform o route s x k₁ in
      (
        x,
        found,
        granted,
        sym (ok-injective l₆),
        fine,
        ap (λ z. changes (z.1).history) (e₁ ∙ e₂ ∙ e₃ ∙ e₄ ∙ e₅ ∙ e₆)
            ∙ ap (λ z. persisted ∷ z)
                (add-returns http platform (repository http platform o) x s₄ b k₅)
            ∙ ap
                (λ z.
                  persisted
                    ∷ added x
                    ∷ placed http platform (repository http platform o) x
                        (platform.get_pid s₄.history x)
                  ++ z)
                (kept
                  ∙ changes-deserialize http platform o request (some x) s₂
                  ∙ ap
                      (λ z.
                        deserialized (some x) (platform.replaced s₂.history o request (some x))
                        ∷ reset_properties x
                        ∷ z)
                      ((handle_item-Keeps http platform o route).at s)),
      )

  -- A PATCH request that succeeds has found the object of its route, and access to it was granted; it has read the request into
  -- the object, found no errors, and updated and stored it, with no other change but the file references removed in
  -- reading, and answers with the
  -- object.
  pub handle_item_patch_returns :
      (request : Request) (route : Fields) (s : State Response) (out : Outcome)
      → (handle_item_patch http platform o request route s).0 ≡ ok out
      → (x : Ref) × ((find http platform o route s).0 ≡ ok (some x))
        × Granted http platform o x (find http platform o route s).1
        × (out ≡ entity x)
        × (platform.has_errors (read_into request route s x (opened request route s)).history x
            ≡ false)
        × (changes ((handle_item_patch http platform o request route s).1).history
            ≡ persisted
              ∷ updated x
              ∷ deserialized
                  (some x)
                  (platform.replaced (opened request route s).history o request (some x))
              ∷ changes s.history)
  unfolding handle_item_patch update
  handle_item_patch_returns request route s out e =
      let (x, k₁, e₁, l₁) =
        >>=-returns (handle_item http platform o route)
          (λ x.
            deserialize_operation http platform o request (some x)
            >> (validate_object http platform x >> change x))
          s out e in
      let s₁ = (handle_item http platform o route s).1 in
      let (y, k₂, e₂, l₂) =
        >>=-returns (deserialize_operation http platform o request (some x))
          (λ w. validate_object http platform x >> change x) s₁ out l₁ in
      let s₂ = (deserialize_operation http platform o request (some x) s₁).1 in
      let (v, k₃, e₃, l₃) =
        >>=-returns (validate_object http platform x) (λ w. change x) s₂ out l₂ in
      let (fine, kept) = validate_object-returns http platform x s₂ v k₃ in
      let s₃ = (validate_object http platform x s₂).1 in
      let (b, k₄, e₄, l₄) = >>=-returns (update platform x) (λ w. answer_with x) s₃ out l₃ in
      let s₄ = (update platform x s₃).1 in
      let (p, k₅, e₅, l₅) =
        >>=-returns (persist_all http platform) (λ w. pure (entity x)) s₄ out l₄ in
      let (found, granted) = handle_item-returns http platform o route s x k₁ in
      (
        x,
        found,
        granted,
        sym (ok-injective l₅),
        fine,
        ap (λ z. changes (z.1).history) (e₁ ∙ e₂ ∙ e₃ ∙ e₄ ∙ e₅)
            ∙ ap (λ z. persisted ∷ updated x ∷ z)
                (kept
                  ∙ changes-deserialize http platform o request (some x) s₁
                  ∙ ap
                      (λ z.
                        deserialized (some x) (platform.replaced s₁.history o request (some x)) ∷ z)
                      ((handle_item-Keeps http platform o route).at s)),
      )
