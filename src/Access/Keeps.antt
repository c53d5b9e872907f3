-- ===== src/Access/Keeps.antt =====
-- What an access check changes of the state of a request.
use t3api.Base.{◌∷◌, arith, ◌≡◌, refl, String, false}
use t3api.Domain.Filter.{ApiFilter}
use t3api.Domain.Operation.{Operation}
use t3api.Runtime.{
  History, Call, Variables, Platform, before_operation_access, before_post_denormalize_access,
  before_filter_access,
}
use t3api.Runtime.Laws.{is_change, Keeps, keeps_rules}
use t3api.Access.{
  get_resolver, evaluate_with, is_granted, is_granted_post_denormalize, is_filter_granted,
}

module _ {R V : Type 0} {view : History → V} (platform : Platform)
    (reads : (c : Call) (h : History) → is_change c ≡ false → view (c ∷ h) ≡ view h) where
  get_resolver-Keeps : (vs : Variables) → Keeps {R = R} view (get_resolver platform vs)
  unfolding get_resolver
  get_resolver-Keeps vs = record { at = λ s. ground arith }

  pub evaluate_with-Keeps :
      (e : String) (vs : Variables) → Keeps {R = R} view (evaluate_with platform e vs)
  unfolding evaluate_with
  evaluate_with-Keeps e vs = search (keeps_rules, get_resolver-Keeps)

  pub is_granted-Keeps :
      (o : Operation) (vs : Variables) → Keeps {R = R} view (is_granted platform o vs)
  unfolding is_granted
  is_granted-Keeps o vs =
      search (
        keeps_rules,
        evaluate_with-Keeps,
        λ (h : History). reads (before_operation_access o) h refl,
      )

  pub is_granted_post_denormalize-Keeps :
      (o : Operation) (vs : Variables)
      → Keeps {R = R} view (is_granted_post_denormalize platform o vs)
  unfolding is_granted_post_denormalize
  is_granted_post_denormalize-Keeps o vs = search (
    keeps_rules,
    evaluate_with-Keeps,
    λ (h : History). reads (before_post_denormalize_access o) h refl,
  )

  pub is_filter_granted-Keeps :
      (f : ApiFilter) (vs : Variables) → Keeps {R = R} view (is_filter_granted platform f vs)
  unfolding is_filter_granted
  is_filter_granted-Keeps f vs =
      search
        (keeps_rules, evaluate_with-Keeps, λ (h : History). reads (before_filter_access f) h refl)
