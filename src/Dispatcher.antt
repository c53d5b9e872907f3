-- ===== src/Dispatcher.antt =====
-- Classes/Dispatcher, the lists of handlers and processors of Classes/Configuration/Configuration.php,
-- and their registration in ext_localconf.php. Registered are handlers and processors of the extension,
-- or classes that are none. Priorities are integers or not numeric.
pub mod Selection
pub mod Routing
pub mod Answers
pub mod Operations
pub mod Refinement
pub mod Forbidden
use t3api.Base.{
  ◌&&◌, if◌then◌else◌, ℕ, String, Bool, true, false, Option, none, some, List, [], ◌∷◌, map,
}
use t3api.Base.Int.{ℤ, pos, negsuc, ltb_ℤ}
use t3api.Base.Sort.{sort}
use t3api.Exception.{Throwable, api, runtime, route_not_found, get_status_code, get_title}
use t3api.Result.{Result, ok, thrown}
use t3api.Php.{Fields}
use t3api.Http.{Reason, Request, Messages, Reason, standard, translated}
use t3api.Cors.{process}
use t3api.Domain.Operation.{Operation, Route}
use t3api.Domain.Resource.{ApiResource, get_operations, get_operation_by_route_name}
use t3api.Runtime.{
  History, Platform, State, Exec, serialized, after_process, pure, throw, lift, ask, continue,
  ◌>>=◌, ◌>>◌,
}
use t3api.Handler.{handle}
use t3api.Handler.Support.{
  Handler, options, file_upload, collection_get, collection_post, collection_method_not_allowed,
  item_get, item_put, item_patch, item_delete, item_method_not_allowed, Outcome, nothing, Settings,
  supports,
}

pub data Priority : Type 0 where
  number : ℤ → Priority
  not_numeric : Priority

-- `is_numeric($priority) ? $priority : 50`
abbrev pub rank : Priority → ℤ
rank (number z) = z
rank not_numeric = pos 50

abbrev pub precedes {ℓ} : {A : Type ℓ} → A × Priority → A × Priority → Bool
precedes (a, p) (b, q) = ltb_ℤ (rank q) (rank p)

-- `getClassNamesSortedByPriority`
unfoldable pub get_class_names_sorted_by_priority {ℓ} : {A : Type ℓ} → List (A × Priority) → List A
get_class_names_sorted_by_priority items = map (λ i. i.0) (sort precedes items)

pub data Processor : Type 0 where
  cors_processor : Processor

-- the handlers of `ext_localconf.php`
abbrev pub registered_handlers : List (Option Handler × Priority)
registered_handlers =
    (some options, number (pos 10500))
    ∷ (some file_upload, number (negsuc 399))
    ∷ (some collection_get, number (negsuc 499))
    ∷ (some collection_post, number (negsuc 499))
    ∷ (some collection_method_not_allowed, number (negsuc 9998))
    ∷ (some item_get, number (negsuc 499))
    ∷ (some item_put, number (negsuc 499))
    ∷ (some item_patch, number (negsuc 499))
    ∷ (some item_delete, number (negsuc 499))
    ∷ (some item_method_not_allowed, number (negsuc 9998))
    ∷ []

abbrev pub registered_processors : List (Option Processor × Priority)
registered_processors = (some cors_processor, number (pos 100)) ∷ []

-- What dispatching calls outside the repository: the matcher of routes, which names a route by the
-- position of its operation, the listeners and the serializer.
pub record Surroundings : Type 0 where
  pub handlers : List (Option Handler × Priority)
  pub processors : List (Option Processor × Priority)
  pub match_request : List Route → Request → Option (ℕ × Fields)
  -- the foreign throwables of the classes `ResourceNotFoundException` and `MethodNotAllowedException` of
  -- the router
  pub is_routing : Throwable → Bool
  pub has_main_endpoint : Bool
  pub matches_main_endpoint : Request → Bool
  pub processed : History → Operation → Outcome → Result Outcome
  pub serialize : History → Operation → Request → Outcome → Result String
  pub serialize_throwable : History → Throwable → Result String
  pub serialize_main_endpoint : History → Result String

-- `getHandlersSupportingOperation`
abbrev pub keep_supporting :
    Settings → Operation → Request → List (Option Handler) → Result (List Handler)
keep_supporting c o request [] = ok []
keep_supporting c o request (none ∷ hs) = thrown (runtime 1591018489732)
keep_supporting c o request (some h ∷ hs) = elim (keep_supporting c o request hs) [
  | thrown e ↦ thrown e
  | ok rest ↦ ok (elim (supports c h o request) [ true ↦ h ∷ rest | false ↦ rest ])
]

unfoldable pub get_handlers_supporting_operation :
    Settings → Surroundings → Operation → Request → Result (List Handler)
unfolding get_class_names_sorted_by_priority supports
get_handlers_supporting_operation c w o request =
    keep_supporting c o request (get_class_names_sorted_by_priority w.handlers)

abbrev routes_of : ApiResource → List Route
routes_of r = map (λ o. o.route) (get_operations r)

module _ (http : Messages) (platform : Platform) (c : Settings) (w : Surroundings) where
  open http use {Response, with_status}

  -- the first handler, or the exception that there is none
  abbrev first_or_throw : List Handler → Result Handler
  first_or_throw [] = thrown (runtime 1557506987081)
  first_or_throw (h ∷ hs) = ok h

  abbrev text_of : Operation → Request → Outcome → Exec Response String
  text_of o request nothing = pure ""
  text_of o request result = ask serialized (λ h. w.serialize h o request result)

  unfoldable pub process_operation : Operation → Fields → Request → Exec Response String
  unfolding get_handlers_supporting_operation handle
  process_operation o route request = do
    handlers ← lift (get_handlers_supporting_operation c w o request)
    handler ← lift (first_or_throw handlers)
    result ← handle http platform c handler o request route
    final ← ask after_process (λ h. w.processed h o result)
    text_of o request final

  -- `catch` of the two exceptions of the router
  abbrev catch_routing {ℓ} :
      {A : Type ℓ} → Exec Response A → Result A × State Response → Result A × State Response
  catch_routing next (ok a, s) = (ok a, s)
  catch_routing next (thrown e, s) = elim (w.is_routing e) [ true ↦ next s | false ↦ (thrown e, s) ]

  unfoldable pub process_operation_by_request : List ApiResource → Request → Exec Response String
  unfolding process_operation get_operation_by_route_name get_operations
  process_operation_by_request [] request s = (thrown (api (route_not_found 1557217186441)), s)
  process_operation_by_request (r ∷ rs) request s = elim (w.match_request (routes_of r) request) [
    | none ↦ process_operation_by_request rs request s
    | some (name, route) ↦
        catch_routing (process_operation_by_request rs request)
          ((do o ← lift (get_operation_by_route_name r name); process_operation o route request) s)
  ]

  abbrev run_processor : Request → Option Processor → Exec Response (Unit {0})
  run_processor request none s = throw (runtime 1603705384) s
  run_processor request (some cors_processor) s = (
    ok tt,
    record s {
      response = elim s.response [
        | none ↦ none
        | some r ↦ some (process http c.matches c.cors request r)
      ];
    },
  )

  abbrev run_processors : Request → List (Option Processor) → Exec Response (Unit {0})
  run_processors request [] = pure tt
  run_processors request (p ∷ ps) = do run_processor request p; run_processors request ps

  unfoldable pub call_processors : Request → Exec Response (Unit {0})
  unfolding get_class_names_sorted_by_priority process
  call_processors request = run_processors request (get_class_names_sorted_by_priority w.processors)

  -- the body of the `try` of `Bootstrap::process`
  unfoldable pub dispatch : List ApiResource → Request → Exec Response String
  unfolding call_processors process_operation_by_request
  dispatch resources request = do
    call_processors request
    if w.has_main_endpoint && w.matches_main_endpoint request
        then ask serialized (λ h. w.serialize_main_endpoint h)
        else process_operation_by_request resources request

  abbrev set_status : ℕ → Reason → Response → Result String → Result (Response × String)
  set_status code reason r (ok body) = ok (with_status code reason r, body)
  set_status code reason r (thrown e) = thrown e

  -- The answer to what `dispatch` gave, the response being `r` by then. A throwable that is not of
  -- the extension is thrown again where it cannot be serialized.
  unfoldable pub answer : Result String → History → Response → Result (Response × String)
  unfolding get_status_code get_title
  answer (ok body) h r = ok (r, body)
  answer (thrown (api e)) h r =
      set_status (get_status_code e) (translated (get_title e)) r (w.serialize_throwable h (api e))
  answer (thrown t) h r = elim (w.serialize_throwable h t) [
    | ok body ↦ ok (with_status 500 standard r, body)
    | thrown e ↦ thrown t
  ]

  -- the property `$response`, which is set throughout
  abbrev response_or : Response → Option Response → Response
  response_or r none = r
  response_or r (some r') = r'

  abbrev pub initial_state : Response → State Response
  initial_state start = record { history = []; resolver = none; response = some start }

  -- `Bootstrap::process`: the response and what is written to its body
  unfoldable pub bootstrap : List ApiResource → Request → Result (Response × String)
  unfolding dispatch answer
  bootstrap resources request =
      let start = http.with_header "Content-Type" "application/ld+json" http.new_response in
      let (r, s') = dispatch resources request (initial_state start) in
      answer r s'.history (response_or start s'.response)
