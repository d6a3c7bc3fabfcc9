-- ===== src/Authn/Gob/Bytes.antt =====
-- crates/lakefs-authn/src/lakefs/gob.rs: what the encoder writes is made of bytes.
use lakefs_auth.Common.{
  ℕ, zero, suc, ◌-◌, ◌%◌, ◌/◌, ◌<◌, ◌^◌, refl, inl, inr, List, [], ◌∷◌, ◌++◌, ltb, length, arith,
  Bool-cases,
}
use lakefs_auth.Common.Int.{pos}
use lakefs_auth.Std.Order.{Text}
use lakefs_auth.Std.Str.{codes}
use lakefs_auth.Std.Utf8.{as_bytes}
use lakefs_auth.Std.Ascii.{IsBytes, IsBytes-append, drop-IsBytes, as_bytes-IsBytes, all-IsBytes}
use lakefs_auth.Authn.Gob.{
  encode_uint, encode_string, encode_int, encode_interface_string, encode_entries, message,
  significant, map_value, type_definition, encode_token_map, be_bytes, map_type_id, zigzag,
  string_type_name, string_type_id, unwrap_or, position_nonzero,
}
use lakefs_auth.Authn.Gob.Ints.{significant-IsSignificant}
use lakefs_auth.Authn.Gob.RoundTrip.{
  IsFitting, length-token_map, length-inner, inner, interface_name, token_name,
  length-type_definition,
}

be_bytes-IsBytes : (n value : ℕ) (rest : List ℕ) → IsBytes rest → IsBytes (be_bytes n value rest)
unfolding be_bytes
be_bytes-IsBytes zero value rest h = h
be_bytes-IsBytes (suc n) value rest h =
    be_bytes-IsBytes n (value / 256) (value % 256 ∷ rest) (omega arith, h)

significant-IsBytes : (value : ℕ) → IsBytes (significant value)
unfolding significant
significant-IsBytes value =
    drop-IsBytes
      (unwrap_or (length (be_bytes 8 value []) - 1) (position_nonzero (be_bytes 8 value [])))
      (be_bytes 8 value []) (be_bytes-IsBytes 8 value [] tt)

encode_uint-IsBytes : (value : ℕ) → value < 2 ^ 64 → IsBytes (encode_uint value)
unfolding encode_uint
encode_uint-IsBytes value h = elim (Bool-cases (ltb value 128)) [
  | inl small ↦ let below : value < 128 = ground (arith, small) in rw small (omega arith, tt)
  | inr large ↦
      let (e, low, high) = significant-IsSignificant value (ground arith) h in
      rw large (omega arith, significant-IsBytes value)
]

encode_string-IsBytes : (t : Text) → IsFitting t → IsBytes (encode_string t)
unfolding encode_string
encode_string-IsBytes t (h, fits) =
    IsBytes-append (encode_uint (length (as_bytes t))) (as_bytes t)
      (encode_uint-IsBytes (length (as_bytes t)) (omega arith)) (as_bytes-IsBytes t h)

message-IsBytes : (body : List ℕ) → IsBytes body → length body < 2 ^ 64 → IsBytes (message body)
unfolding message
message-IsBytes body h fits =
    IsBytes-append (encode_uint (length body)) body (encode_uint-IsBytes (length body) fits) h

string_id-IsBytes : IsBytes (encode_int (pos string_type_id))
unfolding encode_int encode_uint zigzag significant be_bytes position_nonzero
string_id-IsBytes = (omega arith, tt)

map_id-IsBytes : IsBytes (encode_int (pos map_type_id))
unfolding encode_int encode_uint zigzag significant be_bytes position_nonzero
map_id-IsBytes = all-IsBytes (encode_int (pos map_type_id)) refl

type_definition-IsBytes : IsBytes (type_definition map_type_id)
unfolding type_definition encode_int encode_uint zigzag significant be_bytes position_nonzero
type_definition-IsBytes = all-IsBytes (type_definition map_type_id) refl

encode_interface_string-IsBytes : (t : Text) → IsFitting t → IsBytes (encode_interface_string t)
unfolding encode_interface_string inner
encode_interface_string-IsBytes t h =
    let body = inner t in
    IsBytes-append (encode_string string_type_name)
      (encode_int (pos string_type_id) ++ message body)
      (encode_string-IsBytes string_type_name interface_name)
      (IsBytes-append (encode_int (pos string_type_id)) (message body) string_id-IsBytes (
        message-IsBytes body
          (IsBytes-append (encode_uint 0) (encode_string t) (encode_uint-IsBytes 0 (omega arith))
            (encode_string-IsBytes t h))
          (omega (arith, length-inner t h))))

map_value-IsBytes :
    (key value : Text)
    → IsFitting key
    → IsFitting value
    → IsBytes (map_value map_type_id ((key, value) ∷ []))
unfolding map_value encode_entries
map_value-IsBytes key value hk hv =
    let k = encode_interface_string key in
    let v = encode_interface_string value in
    IsBytes-append (encode_int (pos map_type_id))
      (encode_uint 0 ++ (encode_uint 1 ++ (k ++ (v ++ [])))) map_id-IsBytes
      (IsBytes-append (encode_uint 0) (encode_uint 1 ++ (k ++ (v ++ [])))
        (encode_uint-IsBytes 0 (omega arith))
        (IsBytes-append (encode_uint 1) (k ++ (v ++ [])) (encode_uint-IsBytes 1 (omega arith)) (
          IsBytes-append k (v ++ []) (encode_interface_string-IsBytes key hk)
            (IsBytes-append v [] (encode_interface_string-IsBytes value hv) tt))))

pub encode_token_map-IsBytes : (token : Text) → IsFitting token → IsBytes (encode_token_map token)
unfolding encode_token_map
encode_token_map-IsBytes token h =
    IsBytes-append (message (type_definition map_type_id))
      (message (map_value map_type_id ((codes "token", token) ∷ [])))
      (message-IsBytes (type_definition map_type_id) type_definition-IsBytes
        (omega (arith, length-type_definition map_type_id (inl refl))))
      (message-IsBytes (map_value map_type_id ((codes "token", token) ∷ []))
        (map_value-IsBytes (codes "token") token token_name h) (length-token_map token h))
