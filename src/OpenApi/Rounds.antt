-- ===== src/OpenApi/Rounds.antt =====
-- Lists of classes and of schemas: which classes are still to be described, and what is in a list.
use t3api.Base.{
  ℕ, suc, ◌≤◌, ◌<◌, String, true, false, ◌||◌, ◌≡◌, refl, ap, inl, inr, List, [], ◌∷◌, ◌++◌, ◌==◌,
  map, if◌then◌else◌, Bool-cases, eq_iff, eq_refl, arith,
}
use t3api.Base.Text.{in_array}
use t3api.OpenApi.Components.{PropertySchema, names}

-- how many of the classes are not being described
abbrev pub left : List String → List String → ℕ
left [] p = 0
left (u ∷ us) p = let rest = left us p in if in_array u p then rest else suc rest

left-cons_le : (us p : List String) (c : String) → left us (c ∷ p) ≤ left us p
left-cons_le [] p c = omega arith
left-cons_le (u ∷ us) p c = ground (arith, left-cons_le us p c)

pub left-cons :
    (us p : List String) (c : String)
    → in_array c us ≡ true
    → in_array c p ≡ false
    → left us (c ∷ p) < left us p
left-cons [] p c h k = cc
left-cons (u ∷ us) p c h k = elim (Bool-cases (u == c)) [
  | inl e ↦ let same = (eq_iff u c).0 e in ground (arith, left-cons_le us p c, same, eq_refl c)
  | inr e ↦ ground (arith, left-cons us p c, e)
]

pub in_array-append :
    (i : String) (xs ys : List String) → in_array i (xs ++ ys) ≡ (in_array i xs || in_array i ys)
in_array-append i [] ys = refl
in_array-append i (x ∷ xs) ys = ground (arith, in_array-append i xs ys)

pub names-append :
    (xs ys : List (String × List PropertySchema)) → names (xs ++ ys) ≡ names xs ++ names ys
names-append [] ys = refl
names-append (x ∷ xs) ys = ap (λ l. x.0 ∷ l) (names-append xs ys)

pub in_array-map :
    (f : String → String) (c : String) (p : List String)
    → in_array c p ≡ true
    → in_array (f c) (map f p) ≡ true
in_array-map f c [] h = cc
in_array-map f c (x ∷ xs) h = elim (Bool-cases (x == c)) [
  | inl e ↦ rw ((eq_iff x c).0 e, eq_refl (f c)) refl
  | inr e ↦ ground (arith, in_array-map f c xs, e, h)
]
