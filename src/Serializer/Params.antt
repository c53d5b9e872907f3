-- ===== src/Serializer/Params.antt =====
-- Classes/Service/SerializerMetadataService.php: the texts of the parameters of handlers.
pub mod Roundtrip
use t3api.Base.{String, Option, none, some, List, [], ◌∷◌, ◌≡◌, ◌≢◌}
use t3api.Base.Text.{concat, implode}
use t3api.Exception.{invalid_argument}
use t3api.Result.{Result, ok, thrown, ◌>>=◌}
use t3api.Php.{Value, null, bool, int, str, arr, Entries}
use t3api.Php.Number.{text_of_int}

-- `json_encode` of an array with the flags of the code, and `json_decode` to arrays; each gives none for a
-- `JsonException`. What is encoded is decoded, the empty text is not JSON, and a JSON text is longer than
-- a text that it stands for.
pub record Json : Type 0 where
  pub encode : Entries → Option String
  pub decode : String → Option Value
  pub decode-encode : (es : Entries) (t : String) → encode es ≡ some t → decode t ≡ some (arr es)
  pub decode-empty : decode "" ≡ none
  pub decode-text : (s : String) → decode s ≢ some (str s)

abbrev encoded : Option String → Result String
encoded none = thrown (invalid_argument 1600582676444)
encoded (some t) = ok t

unfoldable pub encode_to_single_handler_param : Json → Value → Result String
unfolding text_of_int
encode_to_single_handler_param json (str s) = ok s
encode_to_single_handler_param json (int z) = ok (text_of_int z)
encode_to_single_handler_param json null = ok ""
encode_to_single_handler_param json (arr es) = encoded (json.encode es)
encode_to_single_handler_param json (bool b) = thrown (invalid_argument 1600582783504)

-- `array_map`
encode_all : Json → List Value → Result (List String)
unfolding encode_to_single_handler_param
encode_all json [] = ok []
encode_all json (v ∷ vs) = do
  t ← encode_to_single_handler_param json v
  ts ← encode_all json vs
  ok (t ∷ ts)

unfoldable pub encode_to_handler_params : Json → List Value → Result String
unfolding encode_all
encode_to_handler_params json [] = ok ""
encode_to_handler_params json (v ∷ vs) = do
  ts ← encode_all json (v ∷ vs)
  ok (concat ("'" ∷ implode "','" ts ∷ "'" ∷ []))

abbrev decoded : String → Option Value → Value
decoded t none = str t
decoded t (some v) = v

unfoldable pub decode_from_single_handler_param : Json → String → Value
decode_from_single_handler_param json t = decoded t (json.decode t)
