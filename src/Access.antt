-- ===== src/Access.antt =====
-- Classes/Security: the access checkers of operations and filters. The resolver of expressions is a
-- static variable of a method that both checkers inherit; since PHP 8.1 they share it, and it keeps the
-- variables of the first check that needed it.
pub mod Laws
pub mod Keeps
use t3api.Base.{
  String, Bool, true, false, ◌||◌, Option, none, some, List, [], ◌∷◌, ◌==◌, if◌then◌else◌,
}
use t3api.Exception.{Throwable, type_error}
use t3api.Result.{Result, ok, thrown}
use t3api.Php.{Value, bool}
use t3api.Domain.Filter.{ApiFilter}
use t3api.Domain.Operation.{Operation}
use t3api.Runtime.{
  Ref, Variable, object, operation, filter, Variables, set_variable, merge_variables, Call,
  before_operation_access, before_post_denormalize_access, before_filter_access, evaluated,
  Platform, State, Exec, pure, throw, lift, ask, ◌>>=◌,
}

-- the return type `bool`
abbrev pub need_bool : Value → Result Bool
need_bool (bool b) = ok b
need_bool _ = thrown type_error

-- `empty($filter->getStrategy()->getCondition())`
abbrev pub condition_of : ApiFilter → String
condition_of f = elim f.strategy.condition [ none ↦ "" | some c ↦ if c == "0" then "" else c ]

module _ {R : Type 0} (platform : Platform) where
  open platform use {access_variables, user_variables, evaluate}

  -- `getExpressionLanguageResolver`: the variables of the resolver that it returns
  unfoldable pub get_resolver : Variables → Exec R Variables
  unfolding merge_variables
  get_resolver additional s = elim s.resolver [
    | some vs ↦ (ok vs, s)
    | none ↦
        let vs = merge_variables user_variables additional in
        (ok vs, record s { resolver = some vs })
  ]

  -- the last two lines of each `isGranted…`
  unfoldable pub evaluate_with : String → Variables → Exec R Bool
  unfolding get_resolver
  evaluate_with expression variables = do
    vs ← get_resolver variables
    v ← ask (evaluated expression vs) (λ h. evaluate h expression vs)
    lift (need_bool v)

  unfoldable pub is_granted : Operation → Variables → Exec R Bool
  unfolding evaluate_with set_variable
  is_granted o variables = do
    vs ← ask (before_operation_access o) (λ h. access_variables h variables)
    if o.security == ""
        then pure true
        else evaluate_with o.security (set_variable "t3apiOperation" (operation o) vs)

  unfoldable pub is_granted_post_denormalize : Operation → Variables → Exec R Bool
  unfolding evaluate_with set_variable
  is_granted_post_denormalize o variables = do
    vs ← ask (before_post_denormalize_access o) (λ h. access_variables h variables)
    if o.security_post_denormalize == ""
        then pure true
        else evaluate_with o.security_post_denormalize
            (set_variable "t3apiOperation" (operation o) vs)

  unfoldable pub is_filter_granted : ApiFilter → Variables → Exec R Bool
  unfolding evaluate_with set_variable
  is_filter_granted f variables = do
    vs ← ask (before_filter_access f) (λ h. access_variables h variables)
    if condition_of f == ""
        then pure true
        else evaluate_with (condition_of f) (set_variable "t3apiFilter" (filter f) vs)
