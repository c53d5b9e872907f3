-- ===== src/Dispatcher/Operations.antt =====
-- What processing one operation makes durable: the handler that was chosen, the listeners after it and
-- the serializer.
use t3api.Base.{String, ◌≡◌, refl, ◌∙◌, List, [], ◌∷◌, ◌++◌, ◌⊎◌, inl, inr}
use t3api.Result.{Result, ok, thrown}
use t3api.Php.{Fields}
use t3api.Http.{Request, Messages}
use t3api.Domain.Operation.{Operation}
use t3api.Runtime.{◌>>=◌, after_process, ask, History, Platform, State, Exec, persisted}
use t3api.Runtime.Durable.{Write, pending, durable}
use t3api.Runtime.Laws.{Keeps-continue, Keeps, keeps_rules}
use t3api.Handler.{handle}
use t3api.Handler.Support.{text, members, Handler, Outcome, nothing, entity, Settings}
use t3api.Handler.Refinement.{Promised, handle_refines}
use t3api.Dispatcher.{
  runtime, Throwable, text_of, Surroundings, process_operation, get_handlers_supporting_operation,
}

module _ (http : Messages) (platform : Platform) (c : Settings) (w : Surroundings)
    (request : Request) where
  open http use {Response}

  -- The first of the handlers that support an operation was called in a state, and gave a result that
  -- promises the writes.
  pub record Handled (o : Operation) (route : Fields) (s : State Response) (ws : List Write)
      : Type 0 where
    pub handler : Handler
    pub others : List Handler
    pub supporting : get_handlers_supporting_operation c w o request ≡ ok (handler ∷ others)
    pub promised :
        Promised http platform o request route s handler
          (handle http platform c handler o request route s).0
          ws

  -- An operation ends with an exception and no writes, or was handled.
  abbrev pub Processed : Operation → Fields → State Response → Result String → List Write → Type 0
  Processed o route s t ws = ((e : Throwable) × (t ≡ thrown e) × (ws ≡ [])) ⊎ Handled o route s ws

  text_of-Keeps :
      (o : Operation) (out : Outcome) → Keeps durable (text_of http platform c w o request out)
  text_of-Keeps o nothing = search keeps_rules
  text_of-Keeps o (entity x) = search keeps_rules
  text_of-Keeps o (members p q) = search keeps_rules
  text_of-Keeps o (text t) = search keeps_rules

  -- what follows the handler
  rest : Operation → Outcome → Exec Response String
  rest o out = do
    final ← ask after_process (λ h. w.processed h o out)
    text_of http platform c w o request final

  rest-Keeps : (o : Operation) (out : Outcome) → Keeps durable (rest o out)
  unfolding rest
  rest-Keeps o out = search (keeps_rules, text_of-Keeps)

  module _ (stores : (k : History) → platform.perform k persisted ≡ ok tt) (o : Operation)
      (route : Fields) (s : State Response) (fresh : pending s.history ≡ []) where
    refines_with :
        (r : Result (List Handler))
        → get_handlers_supporting_operation c w o request ≡ r
        → (ws : List Write) × (durable
              ((process_operation http platform c w o route request s).1).history
            ≡ ws ++ durable s.history)
          × Processed o route s (process_operation http platform c w o route request s).0 ws
    unfolding process_operation rest
    refines_with (thrown t) e = rw (e, process_operation) ([], refl, inl (t, refl, refl))
    refines_with (ok []) e =
        rw (e, process_operation) ([], refl, inl (runtime 1557506987081, refl, refl))
    refines_with (ok (h ∷ hs)) e =
        let (ws, d, p) = handle_refines http platform c o request route s fresh h stores in
        (
          ws,
          rw (e, process_operation)
              (Keeps-continue (handle http platform c h o request route s).0 (rest o)
                  (handle http platform c h o request route s).1 (rest-Keeps o)
                ∙ d),
          inr record { handler = h; others = hs; supporting = e; promised = p },
        )

    pub process_operation_refines :
        (ws : List Write) × (durable
            ((process_operation http platform c w o route request s).1).history
          ≡ ws ++ durable s.history)
        × Processed o route s (process_operation http platform c w o route request s).0 ws
    process_operation_refines = refines_with _ refl
