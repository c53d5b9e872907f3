-- ===== src/Objects/Users.antt =====
-- The current user in the data of a request.
use t3api.Base.{
  String, Bool, true, false, ◌≡◌, refl, ◌∙◌, Option, List, [], ◌∷◌, ◌==◌, if◌then◌else◌, Bool-cases,
  inl, inr, arith, eq_iff,
}
use t3api.Base.Int.{ℤ}
use t3api.Php.{Value, Fields, get, known}
use t3api.Objects.Subscribers.{PropertyType, put, is_current_user, user_value, set_current_user}

get-put :
    (key name : String) (v : Value) (fields : Fields)
    → get name (put key v fields) ≡ (if key == name then known v else get name fields)
unfolding get put
get-put key name v [] = refl
get-put key name v ((k, u) ∷ rest) =
    ground (arith, get-put key name v rest, eq_iff k key, eq_iff k name, eq_iff key name)

-- whether a property of this name is of the type for the current user
abbrev pub names_user : String → List PropertyType → Bool
names_user name [] = false
names_user name (p ∷ ps) =
    let later = names_user name ps in
    if is_current_user p then if p.property == name then true else later else later

get-set_user :
    (user : Option ℤ) (ps : List PropertyType) (name : String) (fields : Fields)
    → get name (set_current_user user ps fields)
      ≡ (if names_user name ps then known (user_value user) else get name fields)
unfolding set_current_user
get-set_user user [] name fields = refl
get-set_user user (p ∷ ps) name fields = elim (Bool-cases (is_current_user p)) [
  | inr e ↦ rw e (get-set_user user ps name fields)
  | inl e ↦ rw e (
      get-set_user user ps name (put p.property (user_value user) fields)
      ∙ ground (arith, get-put p.property name (user_value user) fields))
]

-- What the serializer reads for a property, under its serialized name: the uid of the user who is logged in, or
-- null, whatever the client sent, if that is the name of a property of the type for the current user; and
-- otherwise what the client sent, also where the property is of that type but serialized under another name.
pub get-set_current_user :
    (user : Option ℤ) (ps : List PropertyType) (p : PropertyType) (fields : Fields)
    → get p.serialized_name (set_current_user user ps fields) ≡ (
        if names_user p.serialized_name ps
        then known (user_value user)
        else get p.serialized_name fields)
get-set_current_user user ps p fields = get-set_user user ps p.serialized_name fields
