-- ===== src/Runtime/Laws.antt =====
-- Lemmas on what a computation leaves in the history of calls, and on computations that succeed.
use t3api.Base.{ℕ, suc, Bool, true, false, ◌≡◌, refl, sym, ◌∙◌, List, [], ◌∷◌, if◌then◌else◌}
use t3api.Exception.{Throwable}
pub use t3api.Action.{>>=-returns}
use t3api.Result.{returned≢thrown, Result, ok, thrown}
use t3api.Runtime.{
  History, Call, reset_properties, deserialized, set_pid, added, updated, removed, persisted,
  uploaded, State, Exec, pure, throw, lift, continue, ask, ◌>>=◌,
}

-- The calls that change domain objects or what is stored; the others read, notify or validate.
abbrev pub is_change : Call → Bool
is_change (reset_properties x) = true
is_change (deserialized x rs) = true
is_change (set_pid x p) = true
is_change (added x) = true
is_change (updated x) = true
is_change (removed x) = true
is_change persisted = true
is_change uploaded = true
is_change _ = false

abbrev pub changes : History → List Call
changes [] = []
changes (c ∷ h) = let rest = changes h in if is_change c then c ∷ rest else rest

abbrev pub is_persisted : Call → Bool
is_persisted persisted = true
is_persisted _ = false

-- how often `persistAll` was called
abbrev pub persists : History → ℕ
persists [] = 0
persists (c ∷ h) = let rest = persists h in if is_persisted c then suc rest else rest

module _ {R : Type 0} {V : Type 0} (view : History → V) where
  -- A computation leaves a view of the history as it is.
  pub record Keeps {A : Type 0} (m : Exec R A) : Type 0 where
    pub at : (s : State R) → view ((m s).1).history ≡ view s.history

  -- A computation does so where it throws.
  pub record KeepsIfThrown {A : Type 0} (m : Exec R A) : Type 0 where
    pub at_throw :
        (s : State R) (e : Throwable) → (m s).0 ≡ thrown e → view ((m s).1).history ≡ view s.history

module _ {R : Type 0} {V : Type 0} {view : History → V} where
  module _ {A : Type 0} where
    pub Keeps-pure : (a : A) → Keeps {R = R} view (pure a)
    Keeps-pure a = record { at = λ s. refl }

    pub Keeps-throw : (e : Throwable) → Keeps {R = R} view (throw {A = A} e)
    Keeps-throw e = record { at = λ s. refl }

    pub Keeps-lift : (r : Result A) → Keeps {R = R} view (lift r)
    Keeps-lift r = record { at = λ s. refl }

    pub Keeps-ask :
        (c : Call) (f : History → Result A)
        → ((h : History) → view (c ∷ h) ≡ view h)
        → Keeps {R = R} view (ask c f)
    Keeps-ask c f k = record { at = λ s. k s.history }

    pub Keeps-if :
        (b : Bool) (m n : Exec R A) → Keeps view m → Keeps view n → Keeps view (if b then m else n)
    Keeps-if true m n km kn = km
    Keeps-if false m n km kn = kn

    pub KeepsIfThrown-Keeps : (m : Exec R A) → Keeps view m → KeepsIfThrown view m
    KeepsIfThrown-Keeps m k = record { at_throw = λ s e h. k.at s }

    pub KeepsIfThrown-total :
        (m : Exec R A) → ((s : State R) → (a : A) × ((m s).0 ≡ ok a)) → KeepsIfThrown view m
    KeepsIfThrown-total m total = record {
      at_throw = λ s e h. let (a, k) = total s in absurd (returned≢thrown (sym k ∙ h));
    }

  module _ {A B : Type 0} where
    pub Keeps-continue :
        (r : Result A) (f : A → Exec R B) (s : State R)
        → ((a : A) → Keeps view (f a))
        → view ((continue r f s).1).history ≡ view s.history
    Keeps-continue (ok a) f s k = (k a).at s
    Keeps-continue (thrown e) f s k = refl

    pub Keeps-bind :
        (m : Exec R A) (f : A → Exec R B)
        → Keeps view m
        → ((a : A) → Keeps view (f a))
        → Keeps view (m >>= f)
    Keeps-bind m f km kf = record { at = λ s. Keeps-continue (m s).0 f (m s).1 kf ∙ km.at s }

    continue-thrown :
        (r : Result A) (f : A → Exec R B) (s : State R) (e : Throwable)
        → ((a : A) → KeepsIfThrown view (f a))
        → (continue r f s).0 ≡ thrown e
        → view ((continue r f s).1).history ≡ view s.history
    continue-thrown (ok a) f s e k h = (k a).at_throw s e h
    continue-thrown (thrown t) f s e k h = refl

    pub KeepsIfThrown-bind :
        (m : Exec R A) (f : A → Exec R B)
        → Keeps view m
        → ((a : A) → KeepsIfThrown view (f a))
        → KeepsIfThrown view (m >>= f)
    KeepsIfThrown-bind m f km kf = record {
      at_throw = λ s e h. continue-thrown (m s).0 f (m s).1 e kf h ∙ km.at s;
    }

pub ruleset keeps_rules = (Keeps-pure, Keeps-throw, Keeps-lift, Keeps-ask, Keeps-if, Keeps-bind)
