-- ===== src/Handler/Steps.antt =====
-- What the parts that the handlers share have done where they succeed.
use t3api.Base.{
  ℕ, ◌≡◌, refl, Bool, true, false, Option, none, some, List, [], ◌∷◌, ◌++◌, if◌then◌else◌, arith,
  ap, ◌∙◌, sym,
}
use mathlib.Core.Path.{subst}
use t3api.Base.Int.{pos, ltb_ℤ, ℤ}
use t3api.Result.{ok, ok-injective, returned≢thrown}
use t3api.Http.{Request, Messages}
use t3api.Domain.Operation.{Operation}
use t3api.Domain.Settings.{get_main_storage_pid}
use t3api.Runtime.{
  Ref, History, Call, Platform, State, Exec, ◌>>=◌, ◌>>◌, pure, ask, object, set_pid, added,
  deserialized,
}
use t3api.Runtime.Laws.{changes, is_change, Keeps, Keeps-continue, >>=-returns, keeps_rules}
use t3api.Access.{is_granted}
use t3api.Access.Keeps.{is_granted-Keeps, is_granted_post_denormalize-Keeps}
use t3api.Repository.{find_by_uid, Repository, add, place}
use t3api.Handler.{
  find_by_uid, found_or_throw, handle_item, Fields, get_instance_for_operation, after_deserialize,
  call, is_granted_post_denormalize, handle_collection, deserialize_operation, validate_object,
  require, route_id,
}

module _ (http : Messages) (platform : Platform) where
  open http use {Response}

  pub changes-reads : (k : Call) (h : History) → is_change k ≡ false → changes (k ∷ h) ≡ changes h
  changes-reads k h e = rw e refl

  pub require-Keeps : (b : Bool) (n : ℕ) → Keeps changes (require http platform b n)
  require-Keeps true n = search keeps_rules
  require-Keeps false n = search keeps_rules

  pub handle_collection-Keeps : (o : Operation) → Keeps changes (handle_collection http platform o)
  unfolding handle_collection
  handle_collection-Keeps o =
      search (keeps_rules, require-Keeps, is_granted-Keeps {R = Response} platform changes-reads)

  require-returns :
      (b : Bool) (n : ℕ) (s : State Response) (u : Unit {0})
      → (require http platform b n s).0 ≡ ok u
      → b ≡ true
  require-returns true n s u e = refl
  require-returns false n s u e = absurd (returned≢thrown (sym e))

  pub handle_collection-returns :
      (o : Operation) (s : State Response) (u : Unit {0})
      → (handle_collection http platform o s).0 ≡ ok u
      → (is_granted platform o [] s).0 ≡ ok true
  unfolding handle_collection
  handle_collection-returns o s u e =
      let (b, k, e₁, l) =
        >>=-returns (is_granted platform o []) (λ b. require http platform b 1574416639472) s u e in
      k ∙ ap ok (require-returns b 1574416639472 (is_granted platform o [] s).1 u l)

  -- `deserializeOperation` from its access check on
  abbrev check_target : Operation → Ref → Exec Response Ref
  check_target o x = do
    granted ← is_granted_post_denormalize platform o (("object", object x) ∷ [])
    require http platform granted 1574782843388
    ask (after_deserialize x) (λ h. platform.deserialized_object h x)

  check_target-Keeps : (o : Operation) (x : Ref) → Keeps changes (check_target o x)
  check_target-Keeps o x = search (
    keeps_rules,
    require-Keeps,
    is_granted_post_denormalize-Keeps {R = Response} platform changes-reads,
  )

  pub found_or_throw-Keeps :
      (o : Operation) (uid : ℤ) (x : Option Ref)
      → Keeps changes (found_or_throw http platform o uid x)
  found_or_throw-Keeps o uid none = search keeps_rules
  found_or_throw-Keeps o uid (some x) = search keeps_rules

  pub handle_item-Keeps :
      (o : Operation) (route : Fields) → Keeps changes (handle_item http platform o route)
  unfolding handle_item find_by_uid
  handle_item-Keeps o route =
      search
        (
          keeps_rules,
          require-Keeps,
          found_or_throw-Keeps,
          is_granted-Keeps {R = Response} platform changes-reads,
        )
        depth 9

  module _ (o : Operation) where
    -- `handle` of an item from its access check on, and from what was found on
    abbrev check_found : Ref → Exec Response Ref
    check_found x = do
      granted ← is_granted platform o (("object", object x) ∷ [])
      require http platform granted 1574411504130
      pure x

    abbrev use_found : ℤ → Option Ref → Exec Response Ref
    use_found uid found = do x ← found_or_throw http platform o uid found; check_found x

    abbrev pub Granted : Ref → State Response → Type 0
    Granted x s = (is_granted platform o (("object", object x) ∷ []) s).0 ≡ ok true

    admitted-returns :
        (y x : Ref) (b : Bool) (s : State Response)
        → ((do require http platform b 1574411504130; pure y) s).0 ≡ ok x
        → (y ≡ x) × (b ≡ true)
    admitted-returns y x true s e = (ok-injective e, refl)
    admitted-returns y x false s e = absurd (returned≢thrown (sym e))

    check_found-returns :
        (y x : Ref) (s : State Response) → (check_found y s).0 ≡ ok x → (y ≡ x) × Granted y s
    check_found-returns y x s e =
        let (b, k, e₁, l) =
          >>=-returns (is_granted platform o (("object", object y) ∷ []))
            (λ b. do require http platform b 1574411504130; pure y) s x e in
        let (same, allowed) =
          admitted-returns y x b (is_granted platform o (("object", object y) ∷ []) s).1 l in
        (same, k ∙ ap ok allowed)

    use_found-returns :
        (uid : ℤ) (found : Option Ref) (x : Ref) (s : State Response)
        → (use_found uid found s).0 ≡ ok x
        → (found ≡ some x) × Granted x s
    use_found-returns uid none x s e = absurd (returned≢thrown (sym e))
    use_found-returns uid (some y) x s e =
        let (same, allowed) = check_found-returns y x s e in
        (ap some same, subst (λ z. Granted z s) same allowed)

    abbrev pub find : Fields → Exec Response (Option Ref)
    find route =
        find_by_uid platform (get_instance_for_operation platform.descendants o) (route_id route)

    -- What `handle` of an item gives was found, and access to it was granted.
    pub handle_item-returns :
        (route : Fields) (s : State Response) (x : Ref)
        → (handle_item http platform o route s).0 ≡ ok x
        → ((find route s).0 ≡ ok (some x)) × Granted x (find route s).1
    unfolding handle_item
    handle_item-returns route s x e =
        let (found, k, e₁, l) = >>=-returns (find route) (use_found (route_id route)) s x e in
        let (same, allowed) = use_found-returns (route_id route) found x (find route s).1 l in
        (k ∙ ap ok same, allowed)

  pub changes-deserialize :
      (o : Operation) (request : Request) (t : Option Ref) (s : State Response)
      → changes ((deserialize_operation http platform o request t s).1).history
        ≡ deserialized t (platform.replaced s.history o request t) ∷ changes s.history
  unfolding deserialize_operation
  changes-deserialize o request t s =
      Keeps-continue (platform.deserialize s.history o request t) (check_target o)
        (record s {
          history = deserialized t (platform.replaced s.history o request t) ∷ s.history;
        })
        (check_target-Keeps o)

  pub validate_object-returns :
      (x : Ref) (s : State Response) (u : Unit {0})
      → (validate_object http platform x s).0 ≡ ok u
      → (platform.has_errors s.history x ≡ false)
        × (changes ((validate_object http platform x s).1).history ≡ changes s.history)
  unfolding validate_object
  validate_object-returns x s u e = ground arith

  -- the page that an object without one is put on
  abbrev pub placed : Repository → Ref → Option ℤ → List Call
  placed r x none =
      let main = get_main_storage_pid r.for_operation.persistence in
      if ltb_ℤ (pos 0) main then set_pid x main ∷ [] else []
  placed r x (some p) = []

  pub place-returns :
      (r : Repository) (x : Ref) (p : Option ℤ) (s : State Response)
      → changes ((place platform r x p s).1).history ≡ placed r x p ++ changes s.history
  place-returns r x none s = ground arith
  place-returns r x (some p) s = ground arith

  pub add-returns :
      (r : Repository) (x : Ref) (s : State Response) (u : Unit {0})
      → (add platform r x s).0 ≡ ok u
      → changes ((add platform r x s).1).history
        ≡ added x ∷ placed r x (platform.get_pid s.history x) ++ changes s.history
  unfolding add
  add-returns r x s u e =
      let (v, k, eq, l) =
        >>=-returns (place platform r x (platform.get_pid s.history x))
          (λ w. call platform (added x)) s u e in
      ap (λ z. changes (z.1).history) eq
      ∙ ap (λ z. added x ∷ z) (place-returns r x (platform.get_pid s.history x) s)

  module _ (o : Operation) where
    abbrev pub repository : Repository
    repository = get_instance_for_operation platform.descendants o
