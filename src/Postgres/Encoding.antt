-- ===== src/Postgres/Encoding.antt =====
-- database/postgres/encoding.go: the text that bytes are stored as, with the name of its encoding
-- in front. The encodings themselves are those of other libraries.
use flipchat_server.Base.{
  if◌then◌else◌, ◌==◌, nat_eq, bytes_eq, bytes_discrete, Bytes, Result, ok, err, ◌≡◌, refl, Option,
  none, some, [], ◌∷◌, ◌++◌, arith,
}

-- `encoding/base64`, `encoding/hex` and `base58`: what is encoded can be decoded.
pub record Codecs : Type 0 where
  pub base64_encode : Bytes → Bytes
  pub base64_decode : Bytes → Option Bytes
  pub base58_encode : Bytes → Bytes
  pub base58_decode : Bytes → Option Bytes
  pub hex_encode : Bytes → Bytes
  pub hex_decode : Bytes → Option Bytes
  pub base64_round_trip : (x : Bytes) → base64_decode (base64_encode x) ≡ some x
  pub base58_round_trip : (x : Bytes) → base58_decode (base58_encode x) ≡ some x
  pub hex_round_trip : (x : Bytes) → hex_decode (hex_encode x) ≡ some x

-- `EncodeType`
pub data EncodeType : Type 0 where
  base64 base58 hex : EncodeType

-- The names "b64", "b58" and "hex".
abbrev base64_name : Bytes
base64_name = b'b' ∷ b'6' ∷ b'4' ∷ []

abbrev base58_name : Bytes
base58_name = b'b' ∷ b'5' ∷ b'8' ∷ []

abbrev hex_name : Bytes
hex_name = b'h' ∷ b'e' ∷ b'x' ∷ []

-- `Encode`; where it is given no encoding it takes base 64.
unfoldable pub encode_as : Codecs → EncodeType → Bytes → Bytes
encode_as codecs base64 value = base64_name ++ b':' ∷ codecs.base64_encode value
encode_as codecs base58 value = base58_name ++ b':' ∷ codecs.base58_encode value
encode_as codecs hex value = hex_name ++ b':' ∷ codecs.hex_encode value

abbrev pub encode : Codecs → Bytes → Bytes
encode codecs value = encode_as codecs base64 value

-- `strings.SplitN(value, ":", 2)`, where it gives two parts.
unfoldable pub split_colon : Bytes → Option (Bytes × Bytes)
split_colon [] = none
split_colon (b ∷ bs) =
    let rest = split_colon bs in
    if b == b':'
    then some ([], bs)
    else elim rest [ none ↦ none | some (before, after) ↦ some (b ∷ before, after) ]

-- The errors of `Decode`: no colon, an unknown name, and those of the encodings.
pub data DecodeError : Type 0 where
  invalid_format unsupported_encoding corrupt : DecodeError

or_corrupt : Option Bytes → Result DecodeError Bytes
or_corrupt none = err corrupt
or_corrupt (some value) = ok value

unfoldable pub decode : Codecs → Bytes → Result DecodeError Bytes
unfolding split_colon or_corrupt
decode codecs value = elim (split_colon value) [
  | none ↦ err invalid_format
  | some (name, encoded) ↦
      if name == base58_name
      then or_corrupt (codecs.base58_decode encoded)
      else if name == hex_name
      then or_corrupt (codecs.hex_decode encoded)
      else if name == base64_name
      then or_corrupt (codecs.base64_decode encoded)
      else err unsupported_encoding
]

-- What is encoded in any of the encodings is decoded to the same bytes.
pub decode-encode_as :
    (codecs : Codecs) (t : EncodeType) (value : Bytes)
    → decode codecs (encode_as codecs t value) ≡ ok value
unfolding decode encode_as bytes_discrete
decode-encode_as codecs base64 value = rw (codecs.base64_round_trip value) refl
decode-encode_as codecs base58 value = rw (codecs.base58_round_trip value) refl
decode-encode_as codecs hex value = rw (codecs.hex_round_trip value) refl

-- Different bytes have different texts.
pub encode_as_injective :
    (codecs : Codecs) (t : EncodeType) (a b : Bytes)
    → encode_as codecs t a ≡ encode_as codecs t b
    → a ≡ b
encode_as_injective codecs t a b h =
    ground (arith, decode-encode_as codecs t a, decode-encode_as codecs t b)

pub encode_eq :
    (codecs : Codecs) (t : EncodeType) (a b : Bytes)
    → (encode_as codecs t a == encode_as codecs t b) ≡ (a == b)
encode_eq codecs t a b = ground (arith, encode_as_injective codecs t a b)
