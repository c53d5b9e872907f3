-- ===== src/Tests/Components.antt =====
-- Tests of the schemas of the documentation: two classes that refer to each other.
use t3api.Base.{
  String, true, false, ◌≡◌, refl, ◌||◌, Option, none, some, List, [], ◌∷◌, ◌==◌, if◌then◌else◌,
  eq_iff, arith,
}
use t3api.Base.Text.{in_array}
use t3api.Result.{ok}
use t3api.Domain.Operation.{Operation, item}
use t3api.OpenApi.Components.{
  Classes, PropertyMetadata, no_docs, reference_operations, Docs, PropertySchema,
}
use t3api.OpenApi.Resolved.{Documents, reference_operations_resolved}
use t3api.Tests.Samples.{operation}

abbrev property : String → String → String → Option String → PropertyMetadata
property class_name name type element = record {
  class_name = class_name;
  serialized_name = name;
  read_only = false;
  type_name = type;
  element = element;
}

abbrev classes : Classes
classes = record {
  is_exception = λ e. true;
  metadata_of = λ name. ok (
      if name == "Car"
      then property "Car" "wheels" "ObjectStorage" (some "Wheel")
        ∷ property "Base" "uid" "int" none
        ∷ []
      else property "Wheel" "car" "Car" none ∷ property "Wheel" "size" "int" none ∷ []);
  is_storage = λ name. name == "ObjectStorage";
  is_date_time = λ name. false;
  class_exists = λ name. name == "Car" || name == "Wheel";
  is_api_resource = λ name. name == "Car";
}

abbrev known_classes : List String
known_classes = "Car" ∷ "Wheel" ∷ []

listed : (c : String) → classes.class_exists c ≡ true → in_array c known_classes ≡ true
listed c h = ground (arith, eq_iff c "Car", eq_iff c "Wheel", eq_iff "Car" c, eq_iff "Wheel" c)

abbrev operations : List Operation
operations = operation "GET" "" item ∷ operation "PUT" "" item ∷ []

reference_operations_resolved_example :
    ((reference_operations classes 2 operations no_docs).1.exhausted ≡ false)
    × Documents (reference_operations classes 2 operations no_docs)
reference_operations_resolved_example =
    reference_operations_resolved classes known_classes listed 2 (omega arith) operations
      (refl, (refl, tt))

abbrev uid_free : List String
uid_free = "Wheel__READ" ∷ "Car__READ" ∷ "Car__WRITE" ∷ []

described :
    t3api.OpenApi.Components.names (reference_operations classes 2 operations no_docs).1.schemas
    ≡ uid_free
unfolding reference_operations t3api.OpenApi.Components.identifier
described = refl
