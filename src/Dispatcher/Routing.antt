-- ===== src/Dispatcher/Routing.antt =====
-- Which operation a request reaches, and what becomes of methods that no handler takes.
use t3api.Base.{
  ◌∙◌, ℕ, String, ◌≡◌, ◌≢◌, refl, true, false, Option, none, some, List, [], ◌∷◌, ◌++◌, arith, All,
  first, eq_iff,
}
use t3api.Exception.{api, runtime, route_not_found, method_not_allowed}
use t3api.Result.{Result, ok, thrown}
use t3api.Php.{Fields}
use t3api.Http.{Request, Messages}
use t3api.Domain.Operation.{Operation}
use t3api.Domain.Resource.{ApiResource, get_operation_by_route_name}
use t3api.Runtime.{Platform, State}
use t3api.Handler.{handle}
use t3api.Handler.Support.{Handler, Settings, is_collection, collection_method_not_allowed}
use t3api.Dispatcher.{
  Exec, Throwable, Surroundings, registered_handlers, routes_of, process_operation,
  process_operation_by_request, get_handlers_supporting_operation, catch_routing,
}
use t3api.Dispatcher.Selection.{get_handlers-registered}

module _ (http : Messages) (platform : Platform) (c : Settings) (w : Surroundings)
    (request : Request) where
  open http use {Response}

  abbrev pub Unmatched : ApiResource → Type 0
  Unmatched r = w.match_request (routes_of r) request ≡ none

  -- A request that matches no route of any resource is not found, and nothing is done.
  process_operation_by_request-Unmatched :
      (resources : List ApiResource) (s : State Response)
      → All Unmatched resources
      → process_operation_by_request http platform c w resources request s
        ≡ (thrown (api (route_not_found 1557217186441)), s)
  unfolding process_operation_by_request
  process_operation_by_request-Unmatched [] s h = refl
  process_operation_by_request-Unmatched (r ∷ rs) s (e, h) =
      rw (e, process_operation_by_request) (process_operation_by_request-Unmatched rs s h)

  skip-Unmatched :
      (before after : List ApiResource) (s : State Response)
      → All Unmatched before
      → process_operation_by_request http platform c w (before ++ after) request s
        ≡ process_operation_by_request http platform c w after request s
  unfolding process_operation_by_request
  skip-Unmatched [] after s h = refl
  skip-Unmatched (r ∷ rs) after s (e, h) =
      rw (e, process_operation_by_request) (skip-Unmatched rs after s h)

  catch_routing-quiet :
      (next : Exec Response String) (t : Result String) (s : State Response)
      → ((e : Throwable) → t ≡ thrown e → w.is_routing e ≡ false)
      → catch_routing http platform c w next (t, s) ≡ (t, s)
  catch_routing-quiet next (ok a) s h = refl
  catch_routing-quiet next (thrown e) s h = rw (h e refl, catch_routing) refl

  -- The first resource with a matching route has the operation of that route processed, if it has one,
  -- and what comes of that, an exception too, is what comes of the request, unless it is an exception of
  -- the router.
  pub process_operation_by_request_first :
      (before after : List ApiResource) (r : ApiResource) (name : ℕ) (route : Fields)
      (o : Operation) (s s' : State Response) (t : Result String)
      → All Unmatched before
      → w.match_request (routes_of r) request ≡ some (name, route)
      → get_operation_by_route_name r name ≡ ok o
      → process_operation http platform c w o route request s ≡ (t, s')
      → ((e : Throwable) → t ≡ thrown e → w.is_routing e ≡ false)
      → process_operation_by_request http platform c w (before ++ r ∷ after) request s ≡ (t, s')
  unfolding process_operation_by_request
  process_operation_by_request_first before after r name route o s s' t h m g p quiet =
      skip-Unmatched before (r ∷ after) s h
      ∙ rw (m, g, p, process_operation_by_request)
          (catch_routing-quiet (process_operation_by_request http platform c w after request) t s'
            quiet)

  process_operation-none :
      (o : Operation) (route : Fields) (s : State Response) (hs : List Handler)
      → get_handlers_supporting_operation c w o request ≡ ok hs
      → first hs ≡ none
      → process_operation http platform c w o route request s ≡ (thrown (runtime 1557506987081), s)
  unfolding process_operation
  process_operation-none o route s [] e f = rw (e, process_operation) refl
  process_operation-none o route s (h ∷ hs) e f = cc

  same_handler : (h : Handler) {k : Handler} → ◌≡◌ {A = Option Handler} (some h) (some k) → h ≡ k
  same_handler h e = cc

  process_operation-refused :
      (o : Operation) (route : Fields) (s : State Response) (hs : List Handler)
      → get_handlers_supporting_operation c w o request ≡ ok hs
      → first hs ≡ some collection_method_not_allowed
      → process_operation http platform c w o route request s
        ≡ (thrown (api (method_not_allowed 1581460954134)), s)
  unfolding process_operation handle
  process_operation-refused o route s [] e f = cc
  process_operation-refused o route s (h ∷ hs) e f =
      rw (e, process_operation, same_handler h f) refl

  -- With the registered handlers, a collection operation that is neither GET nor POST raises a
  -- RuntimeException and nothing is done. OPTIONS requests are left aside.
  pub process_operation_of_collection :
      (o : Operation) (route : Fields) (s : State Response)
      → w.handlers ≡ registered_handlers
      → is_collection o ≡ true
      → request.method ≢ "OPTIONS"
      → o.method ≢ "GET"
      → o.method ≢ "POST"
      → process_operation http platform c w o route request s ≡ (thrown (runtime 1557506987081), s)
  process_operation_of_collection o route s default k no_options no_get no_post =
      let (hs, e, f) = get_handlers-registered c w o request default in
      process_operation-none o route s hs e (
        f
        ∙ ground
            (arith, eq_iff request.method "OPTIONS", eq_iff o.method "GET", eq_iff o.method "POST"))

  -- With the registered handlers, an item operation of none of the four methods raises a
  -- MethodNotAllowedException, with the code of the handler for collections, and nothing is done.
  process_operation_of_item :
      (o : Operation) (route : Fields) (s : State Response)
      → w.handlers ≡ registered_handlers
      → is_collection o ≡ false
      → request.method ≢ "OPTIONS"
      → o.method ≢ "GET"
      → o.method ≢ "PUT"
      → o.method ≢ "PATCH"
      → o.method ≢ "DELETE"
      → process_operation http platform c w o route request s
        ≡ (thrown (api (method_not_allowed 1581460954134)), s)
  process_operation_of_item o route s default k no_options no_get no_put no_patch no_delete =
      let (hs, e, f) = get_handlers-registered c w o request default in
      process_operation-refused o route s hs e (
        f
        ∙ ground (
          arith,
          eq_iff request.method "OPTIONS",
          eq_iff o.method "GET",
          eq_iff o.method "PUT",
          eq_iff o.method "PATCH",
          eq_iff o.method "DELETE",
        ))
