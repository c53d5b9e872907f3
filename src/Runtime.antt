-- ===== src/Runtime.antt =====
-- What the code of the request cycle calls and does not contain: the event listeners, the expression
-- language, the persistence manager, the serializer and the validators. Each answers as it will,
-- depending on all the calls made before; the calls are recorded. Domain objects are mutable and live
-- outside the code, so they are named by references; what a call does to an object shows in later answers.
pub mod Laws
pub mod Durable
use t3api.Base.{ℕ, String, Bool, Option, List, [], ◌∷◌, ◌==◌, if◌then◌else◌}
use t3api.Base.Int.{ℤ}
use t3api.Exception.{Throwable}
use t3api.Result.{Result}
use t3api.Action.{Action}
pub use t3api.Action.{pure, throw, lift, continue, ◌>>=◌, ◌>>◌}
use t3api.Php.{Value}
use t3api.Http.{Request}
use t3api.Domain.Filter.{ApiFilter}
use t3api.Domain.Operation.{Operation}

-- a domain object
abbrev pub Ref : Type 0
Ref = ℕ

-- a variable of an expression
pub data Variable : Type 0 where
  object : Ref → Variable
  operation : Operation → Variable
  filter : ApiFilter → Variable
  other : Value → Variable

abbrev pub Variables : Type 0
Variables = List (String × Variable)

-- `array_merge($variables, [$name => $v])`
unfoldable pub set_variable : String → Variable → Variables → Variables
set_variable name v [] = (name, v) ∷ []
set_variable name v ((k, w) ∷ rest) =
    if k == name then (k, v) ∷ rest else (k, w) ∷ set_variable name v rest

unfoldable pub merge_variables : Variables → Variables → Variables
unfolding set_variable
merge_variables vs [] = vs
merge_variables vs ((k, v) ∷ rest) = merge_variables (set_variable k v vs) rest

pub data Call : Type 0 where
  -- the events that are dispatched before an access decision
  before_operation_access : Operation → Call
  before_post_denormalize_access : Operation → Call
  before_filter_access : ApiFilter → Call
  evaluated : String → Variables → Call
  looked_up : ℤ → String → Call
  reset_properties : Ref → Call
  -- the object that is read into, and the file references that are removed for new ones on the way
  deserialized : Option Ref → List Ref → Call
  after_deserialize : Ref → Call
  validated : Ref → Call
  set_pid : Ref → ℤ → Call
  added : Ref → Call
  updated : Ref → Call
  removed : Ref → Call
  persisted : Call
  uploaded : Call
  after_process : Call
  serialized : Call

-- The calls so far, the last one first.
abbrev pub History : Type 0
History = List Call

pub record Platform : Type 0 where
  -- a listener of an access event gives the variables anew
  pub access_variables : History → Variables → Result Variables
  -- the variables for the users of the backend and the frontend
  pub user_variables : Variables
  pub evaluate : History → String → Variables → Result Value
  -- `getObjectByIdentifier`, where it gives a domain object
  pub get_object : History → ℤ → String → Option Ref
  pub deserialize : History → Operation → Request → Option Ref → Result Ref
  -- what `removeExistingFileReference` gives the persistence manager while the serializer reads, also where
  -- that throws
  pub replaced : History → Operation → Request → Option Ref → List Ref
  -- the object that the event `AfterDeserializeOperation` holds in the end
  pub deserialized_object : History → Ref → Result Ref
  pub has_errors : History → Ref → Bool
  pub get_pid : History → Ref → Option ℤ
  -- `getDescendantPageIdsRecursive`
  pub descendants : ℤ → ℤ → List ℤ
  -- a call that gives nothing back may throw
  pub perform : History → Call → Result (Unit {0})
  pub upload : History → Operation → Request → Result Ref

-- What a request changes: the calls it made, the static variable of `getExpressionLanguageResolver`,
-- and the response that is passed by reference.
pub record State (R : Type 0) : Type 0 where
  pub history : History
  pub resolver : Option Variables
  pub response : Option R

abbrev pub Exec {ℓ} : Type 0 → Type ℓ → Type ℓ
Exec R A = Action (State R) A

-- An answer of the platform, which then is recorded.
abbrev pub ask {ℓ} : {R : Type 0} {A : Type ℓ} → Call → (History → Result A) → Exec R A
ask call answer s = (answer s.history, record s { history = call ∷ s.history })
