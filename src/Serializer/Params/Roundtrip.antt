-- ===== src/Serializer/Params/Roundtrip.antt =====
-- Encoding and decoding the parameters of handlers (Classes/Service/SerializerMetadataService.php).
use mathlib.Core.Path.{subst}
use t3api.Base.Int.{ℤ}
use t3api.Base.{String, Option, none, some, ◌≡◌, ◌≢◌, ◌↔◌, refl, sym, ap, ◌∙◌}
use t3api.Result.{ok, ok-injective, returned≢thrown}
use t3api.Php.{Value, null, bool, int, str, arr}
use t3api.Php.Number.{text_of_int}
use t3api.Serializer.Params.{
  Json, encoded, decoded, encode_to_single_handler_param, decode_from_single_handler_param,
}

-- An array is; a text is where it is no JSON, and a number where JSON has the same decimals for it; null
-- is not.
abbrev pub IsInvertible : Json → Value → Type 0
IsInvertible json null = ⊥
IsInvertible json (bool b) = Unit
IsInvertible json (int z) = json.decode (text_of_int z) ≡ some (int z)
IsInvertible json (str s) = json.decode s ≡ none
IsInvertible json (arr es) = Unit

decoded-int : (z : ℤ) (t : String) (o : Option Value) → (decoded t o ≡ int z) ↔ (o ≡ some (int z))
decoded-int z t none = (λ h. cc, λ h. cc)
decoded-int z t (some v) = (λ h. ap some h, λ h. cc)

decoded-str :
    (s : String) (o : Option Value) → o ≢ some (str s) → (decoded s o ≡ str s) ↔ (o ≡ none)
decoded-str s none longer = (λ h. refl, λ h. refl)
decoded-str s (some v) longer = (λ h. absurd (longer (ap some h)), λ h. cc)

str≢null : (s : String) → str s ≡ null → ⊥
str≢null s h = cc

encoded-ok : (o : Option String) (t : String) → encoded o ≡ ok t → o ≡ some t
encoded-ok none t h = absurd (returned≢thrown (sym h))
encoded-ok (some u) t h = ap some (ok-injective h)

module _ (json : Json) where
  -- the statement for a value and its text
  abbrev Inverts : Value → String → Type 0
  Inverts v t = (decode_from_single_handler_param json t ≡ v) ↔ IsInvertible json v

  -- A parameter that could be encoded is decoded as the same parameter exactly where it is invertible: an
  -- array is, a text where it is no JSON, a number where JSON reads its decimals as that number, and null
  -- is not.
  decode-encode_to_single_iff :
      (v : Value) (t : String)
      → encode_to_single_handler_param json v ≡ ok t
      → (decode_from_single_handler_param json t ≡ v) ↔ IsInvertible json v
  unfolding encode_to_single_handler_param decode_from_single_handler_param
  decode-encode_to_single_iff null t e =
      subst (Inverts null) (ok-injective e)
        (λ h. str≢null "" (sym (ap (decoded "") json.decode-empty) ∙ h), λ b. absurd b)
  decode-encode_to_single_iff (bool b) t e = absurd (returned≢thrown (sym e))
  decode-encode_to_single_iff (int z) t e =
      subst (Inverts (int z)) (ok-injective e)
        (decoded-int z (text_of_int z) (json.decode (text_of_int z)))
  decode-encode_to_single_iff (str s) t e =
      subst (Inverts (str s)) (ok-injective e) (decoded-str s (json.decode s) (json.decode-text s))
  decode-encode_to_single_iff (arr es) t e =
      (λ h. tt, λ h. ap (decoded t) (json.decode-encode es t (encoded-ok (json.encode es) t e)))
