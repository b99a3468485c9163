-- ===== src/Postgres/Examples.antt =====
-- Encodings for the examples of the stores, which leave the bytes as they are.
use flipchat_server.Postgres.Encoding.{Codecs}
use flipchat_server.Base.{refl, some}

abbrev pub plain : Codecs
plain = record {
  base64_encode = λ x. x;
  base64_decode = λ x. some x;
  base58_encode = λ x. x;
  base58_decode = λ x. some x;
  hex_encode = λ x. x;
  hex_decode = λ x. some x;
  base64_round_trip = λ x. refl;
  base58_round_trip = λ x. refl;
  hex_round_trip = λ x. refl;
}
