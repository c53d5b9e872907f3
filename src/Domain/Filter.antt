-- ===== src/Domain/Filter.antt =====
-- Classes/Domain/Model/ApiFilter.php and ApiFilterStrategy.php
use t3api.Base.{String, Bool, true, false, Option, none, some, List, [], ◌∷◌, ◌==◌, if◌then◌else◌}
use t3api.Base.Text.{dots_to_underscores}
use t3api.Exception.{type_error, invalid_argument}
use t3api.Result.{Result, ok, thrown, ◌>>=◌}
use t3api.Php.{Value, str, arr, Fields, fields, get, need_string}

-- The classes of Classes/Filter, and those that another extension adds.
pub data FilterClass : Type 0 where
  boolean_filter : FilterClass
  numeric_filter : FilterClass
  uid_filter : FilterClass
  order_filter : FilterClass
  range_filter : FilterClass
  search_filter : FilterClass
  contain_filter : FilterClass
  distance_filter : FilterClass
  custom_filter : String → FilterClass

-- What PHP knows of such a class: whether it extends `OrderFilter`, and its static property
-- `$defaultArguments`, if it has one.
pub record CustomClasses : Type 0 where
  pub extends_order : String → Bool
  pub defaults : String → Option Value

pub record ApiFilterStrategy : Type 0 where
  pub name : String
  pub condition : Option String

-- `$strategy[$key] ?? ''`
abbrev text_or_empty : Option Value → Result String
text_or_empty none = ok ""
text_or_empty (some v) = need_string v

-- the constructor of `ApiFilterStrategy`
unfoldable pub create_strategy : Value → Result ApiFilterStrategy
create_strategy (str s) = ok (record { name = if s == "0" then "" else s; condition = none })
create_strategy (arr es) = do
  name ← text_or_empty (get "name" (fields es))
  condition ← text_or_empty (get "condition" (fields es))
  ok (record { name = name; condition = some condition })
create_strategy _ = thrown type_error

pub record ApiFilter : Type 0 where
  pub filter_class : FilterClass
  pub strategy : ApiFilterStrategy
  pub property : String
  pub arguments : Fields

-- `new ApiFilter(…)`
unfoldable pub create_filter : FilterClass → String → Value → Fields → Result ApiFilter
unfolding create_strategy
create_filter class property strategy arguments = do
  s ← create_strategy strategy
  ok (record { filter_class = class; strategy = s; property = property; arguments = arguments })

-- `array_merge` of two arrays with keys that are texts
unfoldable pub set_field : String → Value → Fields → Fields
set_field key v [] = (key, v) ∷ []
set_field key v ((k, w) ∷ rest) = if k == key then (k, v) ∷ rest else (k, w) ∷ set_field key v rest

unfoldable pub array_merge : Fields → Fields → Fields
unfolding set_field
array_merge fs [] = fs
array_merge fs ((k, v) ∷ rest) = array_merge (set_field k v fs) rest

-- `Annotation\ApiFilter`, after its `getProperties`: a strategy for each property.
pub record FilterAnnotation : Type 0 where
  pub annotated_class : FilterClass
  pub properties : Fields
  pub annotated_arguments : Fields

-- the loop of `createFromAnnotations`
unfoldable pub create_for_properties : FilterClass → Fields → Fields → Result (List ApiFilter)
unfolding create_filter
create_for_properties class [] arguments = ok []
create_for_properties class ((property, strategy) ∷ rest) arguments = do
  f ← create_filter class property strategy arguments
  fs ← create_for_properties class rest arguments
  ok (f ∷ fs)

module _ (classes : CustomClasses) where
  -- `$filterClass::$defaultArguments`; only `OrderFilter` sets what `AbstractFilter` leaves empty.
  abbrev pub default_arguments : FilterClass → Result Fields
  default_arguments order_filter = ok (("orderParameterName", str "order") ∷ [])
  default_arguments (custom_filter name) = elim (classes.defaults name) [
    | none ↦ ok []
    | some (arr es) ↦ ok (fields es)
    | some _ ↦ thrown (invalid_argument 1582290496996)
  ]
  default_arguments _ = ok []

  unfoldable pub create_from_annotations : FilterAnnotation → Result (List ApiFilter)
  unfolding create_for_properties array_merge
  create_from_annotations a = do
    defaults ← default_arguments a.annotated_class
    let arguments = array_merge defaults a.annotated_arguments
    elim a.properties [
      | [] ↦ (do f ← create_filter a.annotated_class "" (str "") arguments; ok (f ∷ []))
      | p ∷ ps ↦ create_for_properties a.annotated_class (p ∷ ps) arguments
    ]

  abbrev pub is_order_class : FilterClass → Bool
  is_order_class order_filter = true
  is_order_class (custom_filter name) = classes.extends_order name
  is_order_class _ = false

  -- `isOrderFilter`
  unfoldable pub is_order_filter : ApiFilter → Bool
  is_order_filter f = is_order_class f.filter_class

  -- `getArgument('parameterName') ?? getProperty()`
  abbrev property_or : String → Option Value → Result String
  property_or property none = ok property
  property_or property (some v) = need_string v

  -- `str_replace` and the return type take a text only.
  abbrev required_text : Option Value → Result String
  required_text none = thrown type_error
  required_text (some v) = need_string v

  unfoldable pub get_parameter_name : ApiFilter → Result String
  unfolding is_order_filter dots_to_underscores
  get_parameter_name f = do
    plain ←
        if is_order_filter f
        then required_text (get "orderParameterName" f.arguments)
        else property_or f.property (get "parameterName" f.arguments)
    ok (dots_to_underscores plain)
