-- ===== src/Action.antt =====
-- Calls that return or throw, and change a state; the state that a call leaves by throwing is kept.
use t3api.Base.{◌≡◌, refl, sym}
use t3api.Exception.{Throwable}
use t3api.Result.{Result, ok, thrown, returned≢thrown}

abbrev pub Action {ℓ} : Type 0 → Type ℓ → Type ℓ
Action S A = S → Result A × S

module _ {S : Type 0} where
  module _ {ℓ} {A : Type ℓ} where
    abbrev pub pure : A → Action S A
    pure a s = (ok a, s)

    abbrev pub throw : Throwable → Action S A
    throw e s = (thrown e, s)

    abbrev pub lift : Result A → Action S A
    lift r s = (r, s)

    abbrev handled : Result A → Action S A → Action S A
    handled (ok a) otherwise s = (ok a, s)
    handled (thrown e) otherwise s = otherwise s

    -- `catch (\Throwable $e)`
    abbrev pub catch_all : Action S A → Action S A → Action S A
    catch_all m otherwise s = let (r, s') = m s in handled r otherwise s'

  module _ {ℓ κ} {A : Type ℓ} {B : Type κ} where
    abbrev pub continue : Result A → (A → Action S B) → Action S B
    continue (ok a) f s = f a s
    continue (thrown e) f s = (thrown e, s)

    infixl 5 ◌>>=◌ ◌>>◌
    abbrev pub ◌>>=◌ : Action S A → (A → Action S B) → Action S B
    ◌>>=◌ m f s = let (r, s') = m s in continue r f s'

    abbrev pub ◌>>◌ : Action S A → Action S B → Action S B
    m >> n = m >>= λ _. n

    continue-returns :
        (r : Result A) (f : A → Action S B) (s : S) (b : B)
        → (continue r f s).0 ≡ ok b
        → (a : A) × (r ≡ ok a) × (continue r f s ≡ f a s) × ((f a s).0 ≡ ok b)
    continue-returns (ok a) f s b h = (a, refl, refl, h)
    continue-returns (thrown e) f s b h = absurd (returned≢thrown (sym h))

    -- What a sequence returns, its second part returned from where the first part had left.
    pub >>=-returns :
        (m : Action S A) (f : A → Action S B) (s : S) (b : B)
        → ((m >>= f) s).0 ≡ ok b
        → (a : A) × ((m s).0 ≡ ok a) × ((m >>= f) s ≡ f a (m s).1) × ((f a (m s).1).0 ≡ ok b)
    >>=-returns m f s b h = continue-returns (m s).0 f (m s).1 b h
