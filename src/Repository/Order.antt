-- ===== src/Repository/Order.antt =====
-- The order in which the filters of a request are applied.
use t3api.Result
use mathlib.Core.Path.{subst}
use t3api.Result.{ok}
use mathlib.Core.List.{Perm}
use t3api.Base.Sort.{sort, sort-perm, sort-IsSorted, IsSorted}
use t3api.Base.{inr, inl, Option-cases}
use t3api.Base.{some, All, ◌≤◌, List, String, ◌≡◌, true, false, [], ◌∷◌, arith, eq_iff}
use t3api.Php.{Value, get, Fields}
use t3api.Repository.{
  get_parameter_name, ok, ApiFilter, CustomClasses, array_at, keep_requested, filter_and_sort,
  Named, position, is_present, search, comes_before,
}

position-inj :
    (a b : String) (params : Fields)
    → is_present a params ≡ true
    → is_present b params ≡ true
    → position a params ≡ position b params
    → a ≡ b
unfolding position
position-inj a b [] p q e = cc
position-inj a b ((k, v) ∷ rest) p q e =
    ground (arith, eq_iff k a, eq_iff k b, position-inj a b rest)

abbrev IsRequested : Fields → Named → Type 0
IsRequested params f = is_present f.name params ≡ true

search-inj :
    (a b : String) (params : Fields)
    → is_present a params ≡ true
    → is_present b params ≡ true
    → search a params ≡ search b params
    → a ≡ b
unfolding search
search-inj a b params p q e = position-inj a b params p q (ground arith)

comes_before_follows :
    (params : Fields) (x y z : Named)
    → IsRequested params x
    → IsRequested params y
    → IsRequested params z
    → comes_before params y x ≡ false
    → comes_before params z y ≡ false
    → comes_before params z x ≡ false
unfolding comes_before
comes_before_follows params x y z p q r e f = ground (
  arith,
  eq_iff y.name x.name,
  eq_iff z.name y.name,
  eq_iff z.name x.name,
  eq_iff y.named_filter.property x.named_filter.property,
  eq_iff z.named_filter.property y.named_filter.property,
  eq_iff z.named_filter.property x.named_filter.property,
  search-inj x.name y.name params,
  search-inj y.name z.name params,
  search-inj x.name z.name params,
)

comes_before_asym :
    (params : Fields) (x y : Named)
    → comes_before params y x ≡ true
    → comes_before params x y ≡ false
unfolding comes_before
comes_before_asym params x y e = ground (
  arith,
  eq_iff y.name x.name,
  eq_iff x.name y.name,
  eq_iff y.named_filter.property x.named_filter.property,
  eq_iff x.named_filter.property y.named_filter.property,
)

present-of-get :
    (key : String) (params : Fields) (v : Value)
    → get key params ≡ some v
    → is_present key params ≡ true
unfolding get
present-of-get key [] v e = cc
present-of-get key ((k, w) ∷ rest) v e = ground (arith, present-of-get key rest v)

keep_requested-IsRequested :
    (classes : CustomClasses) (params : Fields) (fs : List ApiFilter) (ns : List Named)
    → keep_requested classes params fs ≡ ok ns
    → All (IsRequested params) ns
unfolding keep_requested
keep_requested-IsRequested classes params [] ns e =
    subst (All (IsRequested params)) (Result.ok-injective e) tt
keep_requested-IsRequested classes params (f ∷ fs) ns e =
    let (name, named, e') = Result.>>=-returned _ (get_parameter_name classes f) ns e in
    let (rest, kept, last) = Result.>>=-returned _ (keep_requested classes params fs) ns e' in
    elim (Option-cases (get name params)) [
      | inl unset ↦
          let same : rest ≡ ns = ground arith in
          subst (All (IsRequested params)) same
            (keep_requested-IsRequested classes params fs rest kept)
      | inr (v, set) ↦
          let same : record { name = name; named_filter = f } ∷ rest ≡ ns = ground arith in
          subst (All (IsRequested params)) same (
            present-of-get name params v set,
            keep_requested-IsRequested classes params fs rest kept,
          )
    ]

-- `x` may stand before `y`: its parameter does not come later in the query string, and of one
-- parameter with an array its property does not come later in that array.
abbrev pub InOrder : Fields → Named → Named → Type 0
InOrder params x y =
    (search x.name params ≤ search y.name params)
    × (x.name ≡ y.name
        → (keys : Fields) → array_at x.name params ≡ some keys
        → search x.named_filter.property keys ≤ search y.named_filter.property keys)

InOrder-of_not_before :
    (params : Fields) (x y : Named) → comes_before params y x ≡ false → InOrder params x y
unfolding comes_before
InOrder-of_not_before params x y e = (
  ground (arith, eq_iff y.name x.name, eq_iff y.named_filter.property x.named_filter.property),
  λ same keys at.
      ground (arith, eq_iff y.name x.name, eq_iff y.named_filter.property x.named_filter.property),
)

-- every element may stand before all later ones
abbrev pub AllInOrder : Fields → List Named → Type 0
AllInOrder params [] = Unit
AllInOrder params (x ∷ xs) = All (InOrder params x) xs × AllInOrder params xs

All-InOrder :
    (params : Fields) (x : Named) (ys : List Named)
    → All (λ y. comes_before params y x ≡ false) ys
    → All (InOrder params x) ys
All-InOrder params x [] h = tt
All-InOrder params x (y ∷ ys) (e, h) =
    (InOrder-of_not_before params x y e, All-InOrder params x ys h)

AllInOrder-of_IsSorted :
    (params : Fields) (xs : List Named) → IsSorted (comes_before params) xs → AllInOrder params xs
AllInOrder-of_IsSorted params [] h = tt
AllInOrder-of_IsSorted params (x ∷ xs) (h, s) =
    (All-InOrder params x xs h, AllInOrder-of_IsSorted params xs s)

-- If the names of all filters can be read, the result is a rearrangement of the filters whose
-- parameter is set, in the order of the query string, and, among the filters of one parameter with an
-- array, in the order of that array.
pub filter_and_sort_order :
    (classes : CustomClasses) (params : Fields) (fs : List ApiFilter) (ns : List Named)
    → filter_and_sort classes params fs ≡ ok ns
    → (named : List Named) × (keep_requested classes params fs ≡ ok named)
      × Perm ns named
      × AllInOrder params ns
unfolding filter_and_sort
filter_and_sort_order classes params fs ns e =
    let (named, kept, sorted) = Result.>>=-returned _ (keep_requested classes params fs) ns e in
    let same : sort (comes_before params) named ≡ ns = ground arith in
    (
      named,
      kept,
      subst (λ xs. Perm xs named) same (sort-perm (comes_before params) named),
      subst (AllInOrder params) same (
          AllInOrder-of_IsSorted params (sort (comes_before params) named) (
            sort-IsSorted (comes_before params) (IsRequested params) (comes_before_follows params)
              (comes_before_asym params) named
              (keep_requested-IsRequested classes params fs named kept))),
    )
