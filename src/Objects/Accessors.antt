-- ===== src/Objects/Accessors.antt =====
-- Classes/Serializer/Accessor/AccessorStrategy.php.
use t3api.Base.{String, Bool, true, false, ◌≡◌, refl, List, [], ◌∷◌, ◌==◌, if◌then◌else◌}
use t3api.Base.Text.{in_array}
use t3api.Exception.{Throwable, runtime, type_error}
use t3api.Result.{Result, ok, thrown}
use t3api.Php.{Value, null}

-- How the metadata of a property reaches its value: by an expression, by the property itself, or by the
-- getter, which may not be callable. Each carries what the library or the object answers.
pub data Reading : Type 0 where
  by_expression : Result Value → Reading
  by_property : Result Value → Reading
  by_getter : Result Value → Reading
  not_callable : Reading

pub data Writing : Type 0 where
  read_only : Writing
  to_property : Result (Unit {0}) → Writing
  by_setter : Result (Unit {0}) → Writing
  setter_not_callable : Writing

abbrev answer_of : Reading → Result Value
answer_of (by_expression r) = r
answer_of (by_property r) = r
answer_of (by_getter r) = r
answer_of not_callable = ok null

-- `exclusionForExceptionsInAccessorStrategyGetValue`: the exceptions by the class of the object
abbrev pub Exclusions : Type 0
Exclusions = List (String × List String)

-- Whether a throwable is an `Exception`, and of which classes it and the object are instances, is known to PHP.
module _ (is_exception : Throwable → Bool) (is_instance : String → Bool)
    (exception_is : Throwable → String → Bool) where
  abbrev is_one_of : Throwable → List String → Bool
  is_one_of e [] = false
  is_one_of e (name ∷ names) =
      let later = is_one_of e names in if exception_is e name then true else later

  -- the loop over the exclusions
  abbrev pub is_excluded : Throwable → Exclusions → Bool
  is_excluded e [] = false
  is_excluded e ((class_name, names) ∷ rest) =
      let later = is_excluded e rest in
      if is_instance class_name
      then if in_array "*" names then true else if is_one_of e names then true else later
      else later

  -- the answer, and whether a warning was raised
  abbrev excused : Exclusions → Result Value → Result Value × Bool
  excused exclusions (ok v) = (ok v, false)
  excused exclusions (thrown e) =
      if is_exception e
      then if is_excluded e exclusions then (ok null, true) else (thrown e, false)
      else (thrown e, false)

  -- `getValue`
  unfoldable pub get_value : Exclusions → Reading → Result Value × Bool
  get_value exclusions reading = excused exclusions (answer_of reading)

-- `setValue`, given the exception of the serializer for a property that is only read
unfoldable pub set_value : Throwable → Writing → Result (Unit {0})
set_value logic read_only = thrown logic
set_value logic (to_property r) = r
set_value logic (by_setter r) = r
set_value logic setter_not_callable = ok tt

accessor_tests :
    (get_value
        (λ e. true)
        (λ c. c == "Car")
        (λ e n. n == "RuntimeException")
        (("Bus", "*" ∷ []) ∷ ("Car", "RuntimeException" ∷ []) ∷ [])
        (by_getter (thrown (runtime 1)))
      ≡ (ok null, true))
    × (get_value
          (λ e. false)
          (λ c. true)
          (λ e n. true)
          (("Car", "*" ∷ []) ∷ [])
          (by_property (thrown type_error))
        ≡ (thrown type_error, false))
unfolding get_value
accessor_tests = (refl, refl)
