-- ===== src/Tests/Sessions.antt =====
-- The gob stream of a session, at concrete values.
use lakefs_auth.Common.{◌≡◌, refl, List, [], ◌∷◌, ◌++◌, inr, arith}
use lakefs_auth.Common.Int.{negsuc}
use lakefs_auth.Std.Order.{Text}
use lakefs_auth.Std.Str.{codes}
use lakefs_auth.Std.Utf8.{as_bytes}
use lakefs_auth.Std.Result.{ok}
use lakefs_auth.Authn.Gob.{
  encode_uint, encode_int, encode_token_map, decode_token_map, decode_string_map, int,
  encode_interface_string, encode_entries, encode_string, map_value, message, type_definition,
  zigzag, significant, be_bytes, position_nonzero, legacy_map_type_id,
}
use lakefs_auth.Authn.Gob.Ints.{int-encode_int}
use lakefs_auth.Authn.Gob.RoundTrip.{
  IsFitting, stream, decode_string_map-stream, decode_token_map-encode_token_map,
}

abc_IsFitting : IsFitting (codes "abc")
unfolding as_bytes
abc_IsFitting = ((refl, (refl, (refl, tt))), omega arith)

decode_token_map-encode_token_map_example :
    decode_token_map (encode_token_map (codes "abc")) ≡ ok (codes "abc")
decode_token_map-encode_token_map_example =
    decode_token_map-encode_token_map (codes "abc") abc_IsFitting

-- The bytes that Go emits.
short_token :
    encode_token_map (codes "abc")
    ≡ 0x0d
      ∷ 0x7f
      ∷ 0x04
      ∷ 0x01
      ∷ 0x02
      ∷ 0xff
      ∷ 0x80
      ∷ 0x00
      ∷ 0x01
      ∷ 0x10
      ∷ 0x01
      ∷ 0x10
      ∷ 0x00
      ∷ 0x00
      ∷ 0x22
      ∷ 0xff
      ∷ 0x80
      ∷ 0x00
      ∷ 0x01
      ∷ 0x06
      ∷ (codes "string"
          ++ (0x0c
              ∷ 0x07
              ∷ 0x00
              ∷ 0x05
              ∷ (codes "token"
                  ++ (0x06 ∷ (codes "string" ++ (0x0c ∷ 0x05 ∷ 0x00 ∷ 0x03 ∷ codes "abc"))))))
unfolding encode_token_map message type_definition map_value encode_entries encode_interface_string
    encode_string encode_int encode_uint zigzag significant be_bytes position_nonzero as_bytes
short_token = refl

abbrev legacy_entries : List (Text × Text)
legacy_entries = (codes "abc", codes "abc") ∷ []

decode_string_map-stream_example :
    decode_string_map (stream legacy_map_type_id legacy_entries) ≡ ok (legacy_entries, [])
unfolding map_value encode_entries encode_interface_string encode_string message encode_int
    encode_uint zigzag significant be_bytes position_nonzero as_bytes
decode_string_map-stream_example =
    decode_string_map-stream legacy_map_type_id legacy_entries (inr refl)
      ((abc_IsFitting, abc_IsFitting), tt) (omega arith) (omega arith)

int-encode_int_example : int (encode_int (negsuc 63) ++ (7 ∷ [])) ≡ ok (negsuc 63, 7 ∷ [])
int-encode_int_example = int-encode_int (negsuc 63) (7 ∷ []) (omega arith, omega arith)
