-- ===== src/Authn/Gob/RoundTrip.antt =====
-- crates/lakefs-authn/src/lakefs/gob.rs: a token, encoded and decoded.
use lakefs_auth.Common.{
  ℕ, ◌+◌, ◌*◌, ◌%◌, ◌^◌, ◌≤◌, ◌<◌, ◌≡◌, refl, ap, sym, ◌∙◌, String, List, [], ◌∷◌, ◌++◌, All, ◌⊎◌,
  length, arith, inl, inr, length-append,
}
use lakefs_auth.Common.Int.{pos}
use lakefs_auth.Std.Result.{ok}
use lakefs_auth.Std.Order.{Text, cmp_text}
use lakefs_auth.Std.Str.{codes}
use lakefs_auth.Std.Utf8.{as_bytes, IsText, from_utf8-as_bytes}
use lakefs_auth.Authn.Gob.{
  encode_uint, encode_string, encode_int, encode_interface_string, encode_entries, message,
  map_value, type_definition, string, read_message, read_interface_string, read_inner,
  read_map_value, read_type_definition, decode_string_map, encode_token_map, decode_token_map,
  read_entries, expect_uint, expect_int, significant, zigzag, be_bytes, position_nonzero, uint, int,
  read_rest, take_bytes, be_value, unzigzag, read_name, announced_id, first_byte, map_type_id,
  legacy_map_type_id, string_type_name, string_type_id, expect_end,
}
use lakefs_auth.Authn.Gob.Ints.{
  uint-encode_uint, int-encode_int, take_bytes-append, length-encode_uint,
}
use mathlib.Core.List.{append_assoc, append-nil}

-- A text that fits in memory: its bytes are counted by an `isize`.
abbrev pub IsFitting : Text → Type 0
IsFitting t = IsText t × (length (as_bytes t) < 2 ^ 63)

string-encode_string :
    (t : Text) (rest : List ℕ) → IsFitting t → string (encode_string t ++ rest) ≡ ok (t, rest)
unfolding string encode_string
string-encode_string t rest (h, fits) =
    let bytes = as_bytes t in
    rw
      (
        append_assoc (encode_uint (length bytes)) bytes rest,
        uint-encode_uint (length bytes) (bytes ++ rest) (omega arith),
        take_bytes-append (length bytes) bytes rest refl,
        from_utf8-as_bytes t h,
      )
      refl

read_message-message :
    (body rest : List ℕ)
    → length body < 2 ^ 64
    → read_message (message body ++ rest) ≡ ok (body, rest)
unfolding read_message message
read_message-message body rest fits =
    rw
      (
        append_assoc (encode_uint (length body)) body rest,
        uint-encode_uint (length body) (body ++ rest) fits,
      )
      (take_bytes-append (length body) body rest refl)

expect_uint-encode_uint :
    (n : ℕ) (what : String) (rest : List ℕ)
    → n < 2 ^ 64
    → expect_uint n what (encode_uint n ++ rest) ≡ ok (tt, rest)
unfolding expect_uint
expect_uint-encode_uint n what rest fits = rw (uint-encode_uint n rest fits) (ground arith)

expect_int-encode_int :
    (n : ℕ) (what : String) (rest : List ℕ)
    → n < 2 ^ 63
    → expect_int n what (encode_int (pos n) ++ rest) ≡ ok (tt, rest)
unfolding expect_int
expect_int-encode_int n what rest fits =
    rw (int-encode_int (pos n) rest (fits, omega arith)) (ground arith)

unfoldable pub inner : Text → List ℕ
inner t = encode_uint 0 ++ encode_string t

read_inner-inner : (t : Text) → IsFitting t → read_inner (inner t) ≡ ok (t, [])
unfolding read_inner inner
read_inner-inner t h =
    let alone : string (encode_string t) ≡ ok (t, []) =
      ap string (sym (append-nil (encode_string t))) ∙ string-encode_string t [] h in
    rw
      (
        expect_uint-encode_uint 0 "interface value has no singleton delta" (encode_string t)
            (omega arith),
        alone,
      )
      (unfold expect_end in refl)

pub length-inner : (t : Text) → IsFitting t → length (inner t) ≤ length (as_bytes t) + 18
unfolding inner encode_string
length-inner t (h, fits) =
    let n = length (as_bytes t) in
    omega (
      arith,
      length-append (encode_uint 0) (encode_uint n ++ as_bytes t),
      length-append (encode_uint n) (as_bytes t),
      length-encode_uint 0 (omega arith),
      length-encode_uint n (omega arith),
    )

pub interface_name : IsFitting string_type_name
unfolding as_bytes
interface_name = ((refl, (refl, (refl, (refl, (refl, (refl, tt)))))), omega arith)

read_interface-encode_interface :
    (t : Text) (rest : List ℕ)
    → IsFitting t
    → read_interface_string (encode_interface_string t ++ rest) ≡ ok (t, rest)
unfolding read_interface_string encode_interface_string inner cmp_text
read_interface-encode_interface t rest h =
    let id = encode_int (pos string_type_id) in
    let body = message (inner t) in
    rw
      (
        append_assoc (encode_string string_type_name) (id ++ body) rest,
        append_assoc id body rest,
        string-encode_string string_type_name (id ++ (body ++ rest)) interface_name,
        expect_int-encode_int string_type_id "interface value is not a string" (body ++ rest)
            (omega arith),
        read_message-message (inner t) rest (omega (arith, length-inner t h)),
        read_inner-inner t h,
      )
      refl

pub token_name : IsFitting (codes "token")
unfolding as_bytes
token_name = ((refl, (refl, (refl, (refl, (refl, tt))))), omega arith)

abbrev pub IsFittingEntry : Text × Text → Type 0
IsFittingEntry (key, value) = IsFitting key × IsFitting value

read_entries-encode_entries :
    (entries : List (Text × Text)) (rest : List ℕ)
    → All IsFittingEntry entries
    → read_entries (length entries) (encode_entries entries ++ rest) ≡ ok (entries, rest)
unfolding read_entries encode_entries
read_entries-encode_entries [] rest h = refl
read_entries-encode_entries ((key, value) ∷ entries) rest ((hk, hv), h) =
    let k = encode_interface_string key in
    let v = encode_interface_string value in
    let es = encode_entries entries in
    rw
      (
        append_assoc k (v ++ es) rest,
        append_assoc v es rest,
        read_interface-encode_interface key (v ++ (es ++ rest)) hk,
        read_interface-encode_interface value (es ++ rest) hv,
        read_entries-encode_entries entries rest h,
      )
      refl

abbrev pub IsMapTypeId : ℕ → Type 0
IsMapTypeId type_id = (type_id ≡ map_type_id) ⊎ (type_id ≡ legacy_map_type_id)

read_type_definition-type_definition :
    (type_id : ℕ)
    → IsMapTypeId type_id
    → read_type_definition (type_definition type_id) ≡ ok (type_id, [])
unfolding read_type_definition type_definition encode_int encode_uint zigzag significant be_bytes
    position_nonzero uint int expect_uint expect_int read_rest take_bytes be_value unzigzag
    read_name announced_id first_byte expect_end
read_type_definition-type_definition type_id (inl e) = rw e refl
read_type_definition-type_definition type_id (inr e) = rw e refl

read_map_value-map_value :
    (type_id : ℕ) (entries : List (Text × Text))
    → type_id < 2 ^ 63
    → length entries < 2 ^ 64
    → All IsFittingEntry entries
    → read_map_value type_id (map_value type_id entries) ≡ ok (entries, [])
unfolding read_map_value map_value
read_map_value-map_value type_id entries hid hn h =
    let es = encode_entries entries in
    let n = encode_uint (length entries) in
    let alone : read_entries (length entries) es ≡ ok (entries, []) =
      ap (read_entries (length entries)) (sym (append-nil es))
      ∙ read_entries-encode_entries entries [] h in
    rw
      (
        expect_int-encode_int type_id "value message has a different type id"
            (encode_uint 0 ++ (n ++ es)) hid,
        expect_uint-encode_uint 0 "singleton delta is missing" (n ++ es) (omega arith),
        uint-encode_uint (length entries) es hn,
        alone,
      )
      (unfold expect_end in refl)

-- The two messages that carry a map of strings.
abbrev pub stream : ℕ → List (Text × Text) → List ℕ
stream type_id entries = message (type_definition type_id) ++ message (map_value type_id entries)

pub length-type_definition :
    (type_id : ℕ) → IsMapTypeId type_id → length (type_definition type_id) ≤ 14
unfolding type_definition encode_int encode_uint zigzag significant be_bytes position_nonzero
length-type_definition type_id (inl e) = rw e (omega arith)
length-type_definition type_id (inr e) = rw e (omega arith)

-- A stream of a map of strings, whichever of the two type ids announces it, is read as that map,
-- when each text is well formed and shorter than 2^63 bytes, and the map's message and the number of
-- its entries are below 2^64.
pub decode_string_map-stream :
    (type_id : ℕ) (entries : List (Text × Text))
    → IsMapTypeId type_id
    → All IsFittingEntry entries
    → length (map_value type_id entries) < 2 ^ 64
    → length entries < 2 ^ 64
    → decode_string_map (stream type_id entries) ≡ ok (entries, [])
unfolding decode_string_map
decode_string_map-stream type_id entries hid h fits hn =
    let definition = type_definition type_id in
    let value = map_value type_id entries in
    let alone : read_message (message value) ≡ ok (value, []) =
      ap read_message (sym (append-nil (message value))) ∙ read_message-message value [] fits in
    rw
      (
        read_message-message definition (message value)
            (omega (arith, length-type_definition type_id hid)),
        read_type_definition-type_definition type_id hid,
        alone,
        read_map_value-map_value type_id entries (ground arith) hn h,
      )
      (unfold expect_end in refl)

length-encode_string : (t : Text) → IsFitting t → length (encode_string t) ≤ length (as_bytes t) + 9
unfolding encode_string
length-encode_string t (h, fits) =
    let n = length (as_bytes t) in
    omega (arith, length-append (encode_uint n) (as_bytes t), length-encode_uint n (omega arith))

length-encode_small : (n : ℕ) → n < 2 ^ 63 → length (encode_int (pos n)) ≤ 9
unfolding encode_int zigzag
length-encode_small n h = length-encode_uint (n * 2 % 2 ^ 64) (omega arith)

length-encode_interface :
    (t : Text) → IsFitting t → length (encode_interface_string t) ≤ length (as_bytes t) + 51
unfolding encode_interface_string message inner
length-encode_interface t h =
    let name = encode_string string_type_name in
    let id = encode_int (pos string_type_id) in
    let body = inner t in
    let len = encode_uint (length body) in
    let six : length (as_bytes string_type_name) ≡ 6 = unfold as_bytes in refl in
    let most : length body ≤ length (as_bytes t) + 18 = length-inner t h in
    omega (
      arith,
      length-append name (id ++ (len ++ body)),
      length-append id (len ++ body),
      length-append len body,
      length-encode_string string_type_name interface_name,
      six,
      length-encode_small string_type_id (omega arith),
      length-encode_uint (length body) (omega arith),
    )

pub length-token_map :
    (t : Text) → IsFitting t → length (map_value map_type_id ((codes "token", t) ∷ [])) < 2 ^ 64
unfolding map_value encode_entries
length-token_map t h =
    let id = encode_int (pos map_type_id) in
    let key = encode_interface_string (codes "token") in
    let value = encode_interface_string t in
    let five : length (as_bytes (codes "token")) ≡ 5 = unfold as_bytes in refl in
    omega (
      arith,
      length-append id (encode_uint 0 ++ (encode_uint 1 ++ (key ++ (value ++ [])))),
      length-append (encode_uint 0) (encode_uint 1 ++ (key ++ (value ++ []))),
      length-append (encode_uint 1) (key ++ (value ++ [])),
      length-append key (value ++ []),
      length-append value [],
      length-encode_small map_type_id (omega arith),
      length-encode_uint 0 (omega arith),
      length-encode_uint 1 (omega arith),
      five,
      length-encode_interface (codes "token") token_name,
      length-encode_interface t h,
    )

-- A session token comes back from the stream that carries it, when it is well formed and its bytes
-- are fewer than 2^63.
pub decode_token_map-encode_token_map :
    (token : Text) → IsFitting token → decode_token_map (encode_token_map token) ≡ ok token
unfolding decode_token_map encode_token_map cmp_text
decode_token_map-encode_token_map token h =
    rw
      (decode_string_map-stream map_type_id ((codes "token", token) ∷ []) (inl refl)
        ((token_name, h), tt) (length-token_map token h) (omega arith))
      refl
