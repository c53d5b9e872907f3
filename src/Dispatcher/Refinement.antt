-- ===== src/Dispatcher/Refinement.antt =====
-- A whole request against what the handlers promise: processors, routing, and the processing of an
-- operation.
use t3api.Dispatcher.Operations.{Handled}
use t3api.Base.{
  Bool, if◌then◌else◌, ◌&&◌, none, Option, false, ℕ, String, ◌≡◌, refl, some, List, [], ◌∷◌, ◌++◌,
  true,
}
use mathlib.Core.List.{Mem}
use t3api.Result.{Result, ok, thrown}
use t3api.Php.{Fields}
use t3api.Http.{Request, Messages}
use t3api.Domain.Operation.{Operation}
use t3api.Domain.Resource.{ApiResource, get_operation_by_route_name}
use t3api.Runtime.{ask, History, Platform, State, Exec, persisted}
use t3api.Runtime.Durable.{Write, durable}
use t3api.Handler.Support.{Settings}
use t3api.Dispatcher.{
  run_processor, serialized, cors_processor, run_processors, get_class_names_sorted_by_priority,
  Processor, call_processors, process_operation_by_request, Throwable, Surroundings, routes_of,
  process_operation,
}

module _ (http : Messages) (platform : Platform) (c : Settings) (w : Surroundings)
    (request : Request) where
  open http use {Response}

  -- The request matches a route of the resource, and the operation of that route was handled.
  pub record Served (r : ApiResource) (s : State Response) (ws : List Write) : Type 0 where
    pub name : ℕ
    pub route : Fields
    pub matched : w.match_request (routes_of r) request ≡ some (name, route)
    pub operation : Operation
    pub named : get_operation_by_route_name r name ≡ ok operation
    pub handled : Handled http platform c w request operation route s ws

  abbrev is_for_main_endpoint : Bool
  is_for_main_endpoint = w.has_main_endpoint && w.matches_main_endpoint request

  -- What a request writes, given its result: nothing where it fails or is for the main endpoint, and else
  -- what the handler promises that served it.
  pub data Written (resources : List ApiResource) (s : State Response)
      : Result String → List Write → Type 0 where
    failed : (t : Result String) (e : Throwable) → t ≡ thrown e → Written resources s t []
    main_endpoint : (t : Result String) → is_for_main_endpoint ≡ true → Written resources s t []
    served :
        (t : Result String) (ws : List Write) (r : ApiResource)
        → Mem r resources
        → Served r s ws
        → Written resources s t ws

  -- the processors call nothing that is recorded
  run_processors-history :
      (ps : List (Option Processor)) (s : State Response)
      → ((run_processors http platform c w request ps s).1).history ≡ s.history
  run_processors-history [] s = refl
  run_processors-history (none ∷ ps) s = refl
  run_processors-history (some cors_processor ∷ ps) s =
      run_processors-history ps (run_processor http platform c w request (some cors_processor) s).1

  pub call_processors-history :
      (s : State Response) → ((call_processors http platform c w request s).1).history ≡ s.history
  unfolding call_processors
  call_processors-history s =
      run_processors-history (get_class_names_sorted_by_priority w.processors) s

  module _ (stores : (k : History) → platform.perform k persisted ≡ ok tt)
      (conclusive : (o : Operation) (route : Fields) (s : State Response) (e : Throwable)
        → (process_operation http platform c w o route request s).0 ≡ thrown e
        → w.is_routing e ≡ false) where
    abbrev by_request : List ApiResource → Exec Response String
    by_request rs = process_operation_by_request http platform c w rs request

    -- the statement for a list of resources
    abbrev Refined : List ApiResource → State Response → Result String × State Response → Type 0
    Refined rs s out =
        (ws : List Write) × (durable (out.1).history ≡ ws ++ durable s.history)
        × Written rs s out.0 ws

    -- what follows the processors
    served_by : List ApiResource → Exec Response String
    served_by resources =
        if is_for_main_endpoint
        then ask serialized (λ h. w.serialize_main_endpoint h)
        else by_request resources
