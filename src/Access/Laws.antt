-- ===== src/Access/Laws.antt =====
-- Which variables an access expression sees.
use t3api.Base.{String, ◌≡◌, ◌≢◌, Bool, none, some, ◌∷◌, arith, eq_iff}
use t3api.Result.{Result, ok, thrown}
use t3api.Domain.Operation.{Operation}
use t3api.Runtime.{
  History, Variables, merge_variables, set_variable, before_post_denormalize_access,
  before_operation_access, Platform, State, operation,
}
use t3api.Access.{is_granted, is_granted_post_denormalize, need_bool}
use t3api.Result

-- the answer of the expression language to an expression over the given variables, as a `bool`
abbrev pub verdict : Platform → History → String → Variables → Result Bool
verdict platform h expression vs = Result.◌>>=◌ (platform.evaluate h expression vs) need_bool

module _ {R : Type 0} (platform : Platform) (o : Operation) (variables vs : Variables)
    (s : State R) where
  -- The first expression of a request is evaluated over the variables of its own check, with the
  -- operation among them.
  is_granted_first :
      o.security ≢ ""
      → s.resolver ≡ none
      → platform.access_variables s.history variables ≡ ok vs
      → (is_granted platform o variables s).0
        ≡ verdict platform (before_operation_access o ∷ s.history) o.security (
            merge_variables platform.user_variables
              (set_variable "t3apiOperation" (operation o) vs))
  unfolding is_granted
  is_granted_first given fresh told = rw (told, fresh) (ground (arith, eq_iff o.security ""))

  -- the variables of the check before denormalization, with the operation among them
  abbrev pub first_variables : Variables
  first_variables =
      merge_variables platform.user_variables (set_variable "t3apiOperation" (operation o) vs)

  -- the state after that check, and whatever calls follow it
  abbrev pub later : History → State R
  later h = record (is_granted platform o variables s).1 { history = h }

  resolver-is_granted :
      o.security ≢ ""
      → s.resolver ≡ none
      → platform.access_variables s.history variables ≡ ok vs
      → (is_granted platform o variables s).1.resolver ≡ some first_variables
  unfolding is_granted
  resolver-is_granted given fresh told = rw (told, fresh) (ground (arith, eq_iff o.security ""))

  -- Where an operation has both security expressions and that of `security` is the first one that the request
  -- evaluates, the check after denormalization evaluates its own over the variables of the
  -- first check, whatever object it is given itself and whatever calls are made between the two.
  pub is_granted_post_denormalize_stale :
      (h : History) (given_later told_later : Variables)
      → o.security ≢ ""
      → o.security_post_denormalize ≢ ""
      → s.resolver ≡ none
      → platform.access_variables s.history variables ≡ ok vs
      → platform.access_variables h given_later ≡ ok told_later
      → (is_granted_post_denormalize platform o given_later (later h)).0
        ≡ verdict platform
            (before_post_denormalize_access o ∷ h)
            o.security_post_denormalize
            first_variables
  unfolding is_granted_post_denormalize
  is_granted_post_denormalize_stale h given_later told_later secured given fresh told again =
      rw (again, resolver-is_granted secured fresh told)
        (ground (arith, eq_iff o.security_post_denormalize ""))
