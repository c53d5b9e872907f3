-- ===== src/Dispatcher/Forbidden.antt =====
-- Requests to which the access checks refuse access, from the request to the answer.
use t3api.Base.{◌∙◌, ap, ℕ, String, ◌≡◌, refl, true, false, some, List, [], ◌∷◌, ◌++◌, All, ◌&&◌}
use t3api.Base.Sort.{sort}
use t3api.Exception.{get_status_code, api, operation_not_allowed}
use t3api.Result.{ok, thrown}
use t3api.Php.{Fields}
use t3api.Http.{Request, Messages}
use t3api.Domain.Operation.{Operation}
use t3api.Domain.Resource.{ApiResource, get_operation_by_route_name}
use t3api.Runtime.{Platform, State, Ref, object}
use t3api.Runtime.Laws.{changes}
use t3api.Access.{is_granted}
use t3api.Handler.{handle, route_id}
use t3api.Handler.Support.{Handler, Settings}
use t3api.Handler.Safety.{
  of_item, of_collection, after_lookup, handle_item_denied, handle_collection_denied,
}
use t3api.Dispatcher.{
  Surroundings, routes_of, process_operation, process_operation_by_request, registered_processors,
  get_handlers_supporting_operation, get_class_names_sorted_by_priority, call_processors, dispatch,
  bootstrap, initial_state, answer,
}
use t3api.Dispatcher.Routing.{Unmatched, process_operation_by_request_first}
use t3api.Dispatcher.Refinement.{call_processors-history}
use t3api.Dispatcher.Answers.{answer-serialized, reason_for, start, run, responded}

module _ (http : Messages) (platform : Platform) (c : Settings) (w : Surroundings)
    (request : Request) where
  open http use {Response, status}

  -- The access check of a handler refuses: that of an item operation the object that was found, that
  -- of a collection operation at once. The number is the code of the exception.
  pub data Denied (h : Handler) (o : Operation) (route : Fields) (s : State Response)
      : ℕ → Type 0 where
    denied_item :
        of_item h ≡ true
        → (x : Ref) → platform.get_object s.history (route_id route) o.entity ≡ some x
        → (is_granted platform o
            (("object", object x) ∷ [])
            (after_lookup http platform c o route s)).0
          ≡ ok false
        → Denied h o route s 1574411504130
    denied_collection :
        of_collection h ≡ true
        → (is_granted {R = Response} platform o [] s).0 ≡ ok false
        → Denied h o route s 1574416639472

  refused :
      (h : Handler) (o : Operation) (route : Fields) (s : State Response) (n : ℕ)
      → Denied h o route s n
      → ((handle http platform c h o request route s).0 ≡ thrown (api (operation_not_allowed n)))
        × (changes ((handle http platform c h o request route s).1).history ≡ changes s.history)
  refused h o route s _ (denied_item i x found denied) =
      handle_item_denied http platform c h o request route s x i found denied
  refused h o route s _ (denied_collection i denied) =
      handle_collection_denied http platform c h o request route s i denied

  process_operation-refused :
      (h : Handler) (hs : List Handler) (o : Operation) (route : Fields) (s : State Response)
      (n : ℕ)
      → get_handlers_supporting_operation c w o request ≡ ok (h ∷ hs)
      → Denied h o route s n
      → process_operation http platform c w o route request s
        ≡ (thrown (api (operation_not_allowed n)), (handle http platform c h o request route s).1)
  unfolding process_operation
  process_operation-refused h hs o route s n e d =
      rw (e, process_operation, (refused h o route s n d).0) refl

  call_processors-returns :
      (s : State Response)
      → w.processors ≡ registered_processors
      → (call_processors http platform c w request s).0 ≡ ok tt
  unfolding call_processors get_class_names_sorted_by_priority sort
  call_processors-returns s e = rw e refl

  module _ (resources : List ApiResource) where
    -- the state after the processors
    abbrev pub prepared : State Response
    prepared =
        (call_processors http platform c w request
          (initial_state http platform c w (start http platform c w resources request))).1

    prepared-history : prepared.history ≡ []
    prepared-history =
        call_processors-history http platform c w request
          (initial_state http platform c w (start http platform c w resources request))

    dispatch-processed :
        w.processors ≡ registered_processors
        → (w.has_main_endpoint && w.matches_main_endpoint request) ≡ false
        → run http platform c w resources request
          ≡ process_operation_by_request http platform c w resources request prepared
    unfolding dispatch
    dispatch-processed e m = rw (call_processors-returns _ e, m, dispatch) refl

  -- the answer once dispatching has ended with the exception
  bootstrap-refused :
      (resources : List ApiResource) (n : ℕ) (body : String) (s' : State Response)
      → run http platform c w resources request ≡ (thrown (api (operation_not_allowed n)), s')
      → w.serialize_throwable
          ((run http platform c w resources request).1).history
          (api (operation_not_allowed n))
        ≡ ok body
      → (answered : Response) × (bootstrap http platform c w resources request
          ≡ ok (answered, body))
        × (status answered ≡ 403)
  unfolding bootstrap get_status_code
  bootstrap-refused resources n body s' e b =
      let t = operation_not_allowed n in
      let out = responded http platform c w resources request in
      let reason = reason_for http platform c w (api t) in
      (
        http.with_status 403 reason out,
        ap
              (λ r.
                answer http platform c w r ((run http platform c w resources request).1).history
                  out)
              (ap (λ x. x.0) e)
            ∙ answer-serialized http platform c w (api t) _ out body b,
        http.status-with_status 403 reason out,
      )

  -- A request whose access check refuses, of the first resource with a matching route and by the first
  -- handler that supports the operation, is answered with status 403 and what the serializer makes of the
  -- exception. No domain object has been changed and nothing stored. The registered processors run
  -- before, the request is not for the main endpoint, and the exception is none of the router.
  pub bootstrap_forbids :
      (before after : List ApiResource) (r : ApiResource) (name : ℕ) (route : Fields)
      (o : Operation) (h : Handler) (hs : List Handler) (n : ℕ) (body : String)
      → w.processors ≡ registered_processors
      → (w.has_main_endpoint && w.matches_main_endpoint request) ≡ false
      → All (Unmatched http platform c w request) before
      → w.match_request (routes_of r) request ≡ some (name, route)
      → get_operation_by_route_name r name ≡ ok o
      → get_handlers_supporting_operation c w o request ≡ ok (h ∷ hs)
      → Denied h o route (prepared (before ++ r ∷ after)) n
      → w.is_routing (api (operation_not_allowed n)) ≡ false
      → w.serialize_throwable
          ((run http platform c w (before ++ r ∷ after) request).1).history
          (api (operation_not_allowed n))
        ≡ ok body
      → (answered : Response) × (bootstrap http platform c w (before ++ r ∷ after) request
          ≡ ok (answered, body))
        × (status answered ≡ 403)
        × (changes ((run http platform c w (before ++ r ∷ after) request).1).history ≡ [])
  bootstrap_forbids before after r name route o h hs n body e main unmatched m g k d quiet b =
      let resources = before ++ r ∷ after in
      let s = prepared resources in
      let (fails, kept) = refused h o route s n d in
      let ended =
        dispatch-processed resources e main
        ∙ process_operation_by_request_first http platform c w request before after r name route o s
            ((handle http platform c h o request route s).1)
            (thrown (api (operation_not_allowed n))) unmatched m g
            (process_operation-refused h hs o route s n k d) (λ x q. cc) in
      let (answered, a, is_403) = bootstrap-refused resources n body _ ended b in
      (
        answered,
        a,
        is_403,
        ap (λ x. changes (x.1).history) ended ∙ kept ∙ ap changes (prepared-history resources),
      )
