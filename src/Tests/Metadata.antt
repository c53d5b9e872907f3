-- ===== src/Tests/Metadata.antt =====
-- Tests of the metadata of the serializer, on two classes of which one extends the other.
use t3api.Base.{
  All, ℕ, ◌<◌, arith, String, Bool, true, false, not, ◌&&◌, Option, none, some, List, [], ◌∷◌, ◌≡◌,
  ◌≢◌, ◌↔◌, refl, sym, ap, ◌∙◌, inl, inr, Bool-cases, if◌then◌else◌, ◌==◌,
}
use t3api.Result.{ok}
use t3api.Php.{Value, null, str, arr, end, entry, Entries}
use t3api.Serializer.Params.{Json, encode_to_handler_params}
use t3api.Serializer.Types.{no_types, type_and, property_type}
use t3api.Serializer.Properties.{
  Reflection, ClassMetadata, groups, type_interface, virtual_property, max_depth, get_for_class,
}
use t3api.Serializer.Generation.{
  Classes, Generated, reversed, get_class_hierarchy, is_autoload_generated,
  generate_autoload_for_class,
}
use t3api.Serializer.Generation.Hierarchy.{Ancestry, get_class_hierarchy-Ancestry}
use t3api.Serializer.Generation.Once.{IsOnce, Reachable, start, called, Reachable-IsOnce}

-- the empty array is encoded, and only its text is decoded
abbrev decode : String → Option Value
decode t = if t == "[]" then some (arr end) else none

abbrev encode : Entries → Option String
encode end = some "[]"
encode _ = none

the_text : {t : String} → encode end ≡ some t → "[]" ≡ t
the_text e = cc

nothing : {t : String} → ◌≡◌ {A = Option String} none (some t) → ⊥
nothing e = cc

decode-encode : (es : Entries) (t : String) → encode es ≡ some t → decode t ≡ some (arr es)
decode-encode end t e = ap decode (sym (the_text e))
decode-encode (entry k v es) t e = absurd (nothing e)

no_text : (s : String) (b : Bool) → (if b then some (arr end) else none) ≡ some (str s) → ⊥
no_text s true e = cc
no_text s false e = cc

decode-text : (s : String) → decode s ≢ some (str s)
decode-text s e = no_text s (s == "[]") e

abbrev json : Json
json = record {
  encode = encode;
  decode = decode;
  decode-encode = decode-encode;
  decode-empty = refl;
  decode-text = decode-text;
}

abbrev reflection : Reflection
reflection = record {
  properties = λ c.
      ("title", groups (str "list") ∷ [])
      ∷ ("tags", type_interface "tags" (str "a" ∷ []) ∷ [])
      ∷ [];
  methods = λ c.
      ("getLabel", virtual_property null ∷ [])
      ∷ ("save", [])
      ∷ ("issuer", virtual_property null ∷ max_depth (str "2") ∷ [])
      ∷ [];
  is_a = λ c d. c == d;
  extractors =
      (λ c p. no_types)
      ∷ (λ c p.
          type_and
            (property_type "array" none true
              (type_and (property_type "string" none false no_types) no_types))
            no_types)
      ∷ [];
}

metadata_test :
    get_for_class json reflection "Page"
    ≡ ok (record {
      of_properties =
          ("title", ("groups", str "list") ∷ ("type", str "array<string>") ∷ [])
          ∷ ("tags", ("type", str "tags<'a'>") ∷ [])
          ∷ [];
      of_virtual_properties =
          (
            "getLabel",
            ("name", str "label")
                ∷ ("serialized_name", str "label")
                ∷ ("type", str "array<string>")
                ∷ [],
          )
          ∷ (
            "issuer",
            ("name", str "suer")
                ∷ ("serialized_name", str "suer")
                ∷ ("max_depth", str "2")
                ∷ ("type", str "array<string>")
                ∷ [],
          )
          ∷ [];
    })
unfolding get_for_class t3api.Php.get t3api.Base.Text.implode t3api.Php.to_bool
metadata_test = refl

abbrev parent : String → Option String
parent c = if c == "Page" then some "Entity" else none

abbrev depth : String → ℕ
depth c = if c == "Page" then 1 else 0

parent-Page :
    (b : Bool) (p : String)
    → (if b then some "Entity" else none) ≡ some p
    → (b ≡ true) × ("Entity" ≡ p)
parent-Page true p e = (refl, cc)
parent-Page false p e = cc

depth-parent : (c p : String) → parent c ≡ some p → depth p < depth c
depth-parent c p e = let (b, q) = parent-Page (c == "Page") p e in rw (b, sym q) (omega arith)

abbrev classes : Classes
classes = record {
  reflect = λ c. ok tt;
  parent = parent;
  depth = depth;
  depth-parent = depth-parent;
  Metadata = ClassMetadata;
  metadata = λ c. get_for_class json reflection c;
  stores = λ cs c. true;
  directory = "var";
}

abbrev old : ClassMetadata
old = record { of_properties = []; of_virtual_properties = [] }

abbrev first_state : Generated classes
first_state = record { cache = []; files = ("var/Entity.yml", old) ∷ [] }

abbrev second_state : Generated classes
second_state = (generate_autoload_for_class classes false "Page" first_state).1

second-cache : second_state.cache ≡ "Page" ∷ "Entity" ∷ []
unfolding generate_autoload_for_class t3api.Serializer.Generation.get_autogenerated_file_path
    get_for_class
second-cache = refl

second-Reachable : Reachable classes false second_state
second-Reachable = called false "Page" false first_state (start (("var/Entity.yml", old) ∷ []))

Reachable-IsOnce_example : IsOnce classes false second_state
Reachable-IsOnce_example = Reachable-IsOnce classes false second_state second-Reachable

get_class_hierarchy-Ancestry_example :
    (cs : List String) × Ancestry classes "Page" cs
    × (get_class_hierarchy classes "Page" ≡ reversed cs)
get_class_hierarchy-Ancestry_example = get_class_hierarchy-Ancestry classes "Page"

params_test : encode_to_handler_params json (str "a" ∷ null ∷ arr end ∷ []) ≡ ok "'a','','[]'"
unfolding encode_to_handler_params t3api.Base.Text.implode
params_test = refl
