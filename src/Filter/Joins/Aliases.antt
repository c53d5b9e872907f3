-- ===== src/Filter/Joins/Aliases.antt =====
-- The aliases of the joins of a statement (Classes/Filter/AbstractFilter.php), and what a call keeps of them.
use mathlib.Core.Path.{subst}
use t3api.Base.{
  ℕ, suc, ◌<◌, ◌≤◌, arith, String, Bool, true, eq_refl, All, List, [], ◌∷◌, ◌≡◌, ◌≢◌, ◌||◌, ◌==◌,
  refl, sym, map,
}
use t3api.Base.Text.{in_array}
use t3api.Exception.{Throwable}
use t3api.Result.{Result, ok, thrown, ok-injective, returned≢thrown}
use t3api.Action.{Action, pure, throw, continue}
use t3api.Filter.Joins.{Mapping, Join, Joins, Condition, alias_of, join}

ne_of_lt : (i n : ℕ) → i < n → i ≡ n → ⊥
ne_of_lt i n l e = omega arith

or_true : (b : Bool) → b || true ≡ true
or_true b = ground arith

-- the aliases of a statement whose root is called `o`, as in all filters
abbrev pub aliases : List Join → List String
aliases js = "o" ∷ map (λ (j : Join). j.alias) js

module _ (mapping : Mapping) where
  -- an alias that one of the first `n` calls made
  abbrev pub IsMade : ℕ → Join → Type 0
  IsMade n j = (i : ℕ) × (t : String) × (j.alias ≡ alias_of mapping i t) × (i < n)

  -- an alias that another call than one of `uniqid` made
  unfoldable pub IsOther : ℕ → Join → Type 0
  IsOther n j = (i : ℕ) × (t : String) × (j.alias ≡ alias_of mapping i t) × (i ≢ n)

  -- The alias comes from a call of `uniqid` from which none of the joins has its alias.
  abbrev pub HasOwnCall : Join → List Join → Type 0
  HasOwnCall j js = (n : ℕ) × (t : String) × (j.alias ≡ alias_of mapping n t) × All (IsOther n) js

  -- Each join has an alias from a call of its own and starts at an alias that is there.
  abbrev pub IsJoined : List Join → Type 0
  IsJoined [] = Unit
  IsJoined (j ∷ js) = (in_array j.from_alias (aliases js) ≡ true) × HasOwnCall j js × IsJoined js

  abbrev pub IsSound : Joins → Type 0
  IsSound s = IsJoined s.joins × All (IsMade s.calls) s.joins

  pub All-IsOther : (n : ℕ) (js : List Join) → All (IsMade n) js → All (IsOther n) js
  unfolding IsOther
  All-IsOther n [] h = tt
  All-IsOther n (j ∷ js) ((i, t, e, l), k) = ((i, t, e, λ p. ne_of_lt i n l p), All-IsOther n js k)

  pub All-IsMade : (m n : ℕ) (js : List Join) → m ≤ n → All (IsMade m) js → All (IsMade n) js
  All-IsMade m n [] b h = tt
  All-IsMade m n (j ∷ js) b ((i, t, e, l), k) = ((i, t, e, omega arith), All-IsMade m n js b k)

  -- an alias at which a join may start
  abbrev pub IsKnown : Joins → String → Type 0
  IsKnown s a = in_array a (aliases s.joins) ≡ true

  -- What a call that came to a state, from one that was sound, has kept; it returns what `P` says.
  pub record Kept {A : Type 0} (P : A → Joins → Type 0) (s : Joins) (out : Result A × Joins)
      : Type 0 where
    pub sound : IsSound out.1
    pub grows : (a : String) → IsKnown s a → IsKnown out.1 a
    pub gives : (x : A) → out.0 ≡ ok x → P x out.1

  module _ {A : Type 0} {P : A → Joins → Type 0} where
    pub Kept-throw : (e : Throwable) (s : Joins) → IsSound s → Kept P s (throw e s)
    Kept-throw e s h = record {
      sound = h;
      grows = λ a k. k;
      gives = λ x k. absurd (returned≢thrown (sym k));
    }

    pub Kept-pure : (a : A) (s : Joins) → IsSound s → P a s → Kept P s (pure a s)
    Kept-pure a s h p = record {
      sound = h;
      grows = λ b k. k;
      gives = λ x k. subst (λ y. P y s) (ok-injective k) p;
    }

    pub Kept-continue :
        {B : Type 0} {Q : B → Joins → Type 0} (s : Joins) (f : A → Action Joins B)
        (out : Result A × Joins)
        → Kept P s out
        → ((a : A)
            → IsSound out.1
            → ((b : String) → IsKnown s b → IsKnown out.1 b)
            → P a out.1
            → Kept Q out.1 (f a out.1))
        → Kept Q s (continue out.0 f out.1)
    Kept-continue s f (thrown e, s') k h = record {
      sound = k.sound;
      grows = k.grows;
      gives = λ x e. absurd (returned≢thrown (sym e));
    }
    Kept-continue s f (ok a, s') k h =
        let l = h a k.sound k.grows (k.gives a refl) in
        record { sound = l.sound; grows = λ b e. l.grows b (k.grows b e); gives = l.gives }

  pub IsKnown-later :
      (a parent table alias : String) (c : Condition) (s : Joins)
      → IsKnown s a
      → IsKnown (join parent table alias c s).1 a
  IsKnown-later a parent table alias c s k = ground arith

  pub IsKnown-now :
      (parent table alias : String) (c : Condition) (s : Joins)
      → IsKnown (join parent table alias c s).1 alias
  IsKnown-now parent table alias c s = rw (eq_refl alias) (or_true ("o" == alias))

  pub IsSound-join :
      (s : Joins) (parent table : String) (n : ℕ) (t : String) (c : Condition)
      → IsSound s
      → IsKnown s parent
      → n < s.calls
      → All (IsOther n) s.joins
      → IsSound (join parent table (alias_of mapping n t) c s).1
  IsSound-join s parent table n t c h known l others =
      ((known, (n, t, refl, others), h.0), ((n, t, refl, l), h.1))

  -- the state with one more call of `uniqid`
  abbrev pub called : Joins → Joins
  called s = record s { calls = suc s.calls }

  pub IsSound-called : (s : Joins) → IsSound s → IsSound (called s)
  IsSound-called s (j, m) = (j, All-IsMade s.calls (suc s.calls) s.joins (omega arith) m)
