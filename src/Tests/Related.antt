-- ===== src/Tests/Related.antt =====
-- Tests of the handlers of related objects and files, and of the current user.
use t3api.Base.{◌≡◌, refl, none, some, [], ◌∷◌, ◌==◌, if◌then◌else◌}
use t3api.Base.Int.{pos, eqb_ℤ}
use t3api.Exception.{invalid_argument, runtime}
use t3api.Result.{ok, thrown}
use t3api.Php.{str, int, arr, Entries, end, entry, get, known}
use t3api.Objects.{
  Objects, storage, other_value, PropertyMetadata, TypeName, Context, updated, transport_type,
  deserialize_object,
}
use t3api.Objects.Cascade.{Permitted, deserialize_object-Permitted}
use t3api.Objects.Files.{
  no_file, Files, Replaced, file_transport, deserialize_file, deserialize_file-Replaced,
}
use t3api.Objects.Subscribers.{PropertyType, user_value, set_current_user}
use t3api.Objects.Users.{names_user, get-set_current_user}

-- a car 70 with the wheels 1 and 2; the wheel with the uid n is the object n
abbrev objects : Objects
objects = record {
  get_object_by_identifier =
      λ uid type. if eqb_ℤ uid (pos 1) then some 1 else if eqb_ℤ uid (pos 3) then some 3 else none;
  get_uid = λ x. some (pos x);
  get_property = λ x name. if name == "wheels" then ok (storage (1 ∷ 2 ∷ [])) else ok other_value;
  is_domain_class = λ name. name == "Wheel";
  is_storage_class = λ name. name == "ObjectStorage";
  cascade_annotations = λ class_name name. ok ((str "persist" ∷ []) ∷ []);
}

abbrev wheels : PropertyMetadata
wheels = record { class_name = "Car"; name = "wheels"; type_name = "ObjectStorage" }

abbrev wheel_type : TypeName
wheel_type = record { name = transport_type; target_type = some "Wheel" }

abbrev wheel_data : Entries
wheel_data = entry "uid" (int (pos 1)) (entry "size" (int (pos 17)) end)

abbrev of_car : Context
of_car = record { property_metadata = some wheels; target = some 70 }

written :
    deserialize_object objects wheel_type (arr wheel_data) of_car
    ≡ ok (updated 1 wheel_data "Wheel")
unfolding deserialize_object
written = refl

-- a wheel of another car
strange :
    deserialize_object objects wheel_type (arr (entry "uid" (int (pos 3)) end)) of_car
    ≡ thrown (invalid_argument 1589811402076)
unfolding deserialize_object
strange = refl

deserialize_object-Permitted_example : Permitted objects of_car (updated 1 wheel_data "Wheel")
deserialize_object-Permitted_example =
    deserialize_object-Permitted objects wheel_type (arr wheel_data) of_car
      (updated 1 wheel_data "Wheel") written

abbrev of_new_car : Context
of_new_car = record { property_metadata = some wheels; target = none }

-- a POST request with the uid of an object that exists
new_car_test :
    deserialize_object objects wheel_type (arr wheel_data) of_new_car
    ≡ thrown (runtime 1589811502043)
unfolding deserialize_object
new_car_test = refl

-- the property holds the reference 5
abbrev files : Files
files = record {
  is_file_class = λ name. name == "FileReference";
  single_reference = ok (some 5);
  get_file_reference = λ uid. some 6;
  current_pid = some none;
  read_reference = λ es type. ok tt;
  create_file_reference = λ u. ok tt;
}

abbrev file_type : TypeName
file_type = record { name = file_transport; target_type = some "FileReference" }

deserialize_file-Replaced_example :
    Replaced files (int (pos 0)) (deserialize_file files file_type (int (pos 0)) []) []
deserialize_file-Replaced_example = deserialize_file-Replaced files file_type (int (pos 0)) []

removed : deserialize_file files file_type (int (pos 0)) [] ≡ (ok no_file, 5 ∷ [])
unfolding deserialize_file
removed = refl

-- a property with its own name, and one that is serialized under another
abbrev owner : PropertyType
owner = record { property = "owner"; serialized_name = "owner"; type_name = some "CurrentFeUser" }

abbrev renamed : PropertyType
renamed = record { property = "author"; serialized_name = "by"; type_name = some "CurrentFeUser" }

renamed_test :
    get "by" (set_current_user (some (pos 4)) (owner ∷ renamed ∷ []) (("by", int (pos 1)) ∷ []))
    ≡ some (int (pos 1))
unfolding set_current_user get
renamed_test = refl

get-set_current_user_example :
    get "owner"
      (set_current_user (some (pos 4)) (owner ∷ renamed ∷ []) (("owner", int (pos 1)) ∷ []))
    ≡ (if names_user "owner" (owner ∷ renamed ∷ [])
        then known (user_value (some (pos 4)))
        else get "owner" (("owner", int (pos 1)) ∷ []))
get-set_current_user_example =
    get-set_current_user (some (pos 4)) (owner ∷ renamed ∷ []) owner (("owner", int (pos 1)) ∷ [])
