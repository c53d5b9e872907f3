-- ===== src/Result.antt =====
-- A call that returns or throws.
use t3api.Base.{Bool, true, false, if◌then◌else◌, sym, inr, inl, ◌⊎◌, ◌≡◌, refl}
use t3api.Exception.{Throwable}

pub data Result {ℓ} (A : Type ℓ) : Type ℓ where
  ok : A → Result A
  thrown : Throwable → Result A

module _ {ℓ κ} {A : Type ℓ} {B : Type κ} where
  infixl 5 ◌>>=◌
  abbrev pub ◌>>=◌ : Result A → (A → Result B) → Result B
  thrown t >>= next = thrown t
  ok value >>= next = next value

  -- A sequence that returns has a first part that returns.
  pub >>=-returned :
      (next : A → Result B) (r : Result A) (w : B)
      → (r >>= next) ≡ ok w
      → (v : A) × (r ≡ ok v) × (next v ≡ ok w)
  >>=-returned next (thrown t) w e = cc
  >>=-returned next (ok value) w e = (value, refl, e)

pub ok-injective {ℓ} : {A : Type ℓ} {a b : A} → ok a ≡ ok b → a ≡ b
ok-injective e = cc

-- A continuation may be split where each of its values may.
pub >>=-chain {ℓ κ μ} :
    {A : Type ℓ} {B : Type κ} {C : Type μ} (m : Result A) (f : A → Result B) (k : A → Result C)
    (h : B → Result C)
    → ((a : A) → k a ≡ (f a >>= h))
    → (m >>= k) ≡ (m >>= f >>= h)
>>=-chain (ok a) f k h e = e a
>>=-chain (thrown e) f k h p = refl

pub Result-cases {ℓ} :
    {A : Type ℓ} (r : Result A) → ((a : A) × (r ≡ ok a)) ⊎ ((e : Throwable) × (r ≡ thrown e))
Result-cases (ok a) = inl (a, refl)
Result-cases (thrown e) = inr (e, refl)

pub returned≢thrown {ℓ} : {A : Type ℓ} {a : A} {e : Throwable} → ok a ≡ thrown e → ⊥
returned≢thrown p = cc

-- A guard that lets a call return has been passed.
pub guard-passed {ℓ} :
    {A : Type ℓ} (test : Bool) (r : Result A) (e : Throwable) (a : A)
    → (if test then r else thrown e) ≡ ok a
    → (test ≡ true) × (r ≡ ok a)
guard-passed true r e a h = (refl, h)
guard-passed false r e a h = absurd (returned≢thrown (sym h))
