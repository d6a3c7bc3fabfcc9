-- ===== src/Authn/Gob.antt =====
-- crates/lakefs-authn/src/lakefs/gob.rs: Go's `encoding/gob` for the session map. A `Vec<u8>` is a
-- list of numbers below 256, and a `Cursor` is the bytes that it has left.
pub mod Ints
pub mod RoundTrip
pub mod Bytes
use Prim.Native.Nat.{bit_or}
use lakefs_auth.Common.{
  ℕ, zero, suc, ◌+◌, ◌-◌, ◌*◌, ◌/◌, ◌%◌, ◌^◌, Bool, true, false, not, ◌||◌, Option, none, some,
  String, List, [], ◌∷◌, ◌++◌, length, take, drop, is_empty, ltb, leb, find, if◌then◌else◌,
}
use lakefs_auth.Common
use lakefs_auth.Common.Int.{ℤ, pos, negsuc, ◌≤?ℤ◌}
use lakefs_auth.Std.Order.{Text, text_ord, ◌==◌}
use lakefs_auth.Std.Str.{codes}
use lakefs_auth.Std.Utf8.{as_bytes, from_utf8}
use lakefs_auth.Std.Result.{Result, ok, err, ok_or}

abbrev pub map_type_id : ℕ
map_type_id = 64

abbrev pub legacy_map_type_id : ℕ
legacy_map_type_id = 65

abbrev pub string_type_id : ℕ
string_type_id = 6

abbrev pub interface_type_id : ℕ
interface_type_id = 8

abbrev pub wire_type_map_field : ℕ
wire_type_map_field = 3

abbrev pub map_type_name : Text
map_type_name = codes "map[interface {}]interface {}"

abbrev pub string_type_name : Text
string_type_name = codes "string"

pub data GobError : Type 0 where
  truncated integer_too_large trailing_bytes not_utf8 : GobError
  unexpected_type_id : ℤ → GobError
  unexpected_type_name : Text → GobError
  unexpected : String → GobError

-- `value.to_be_bytes()`: each round splits the lowest byte off.
unfoldable pub be_bytes : ℕ → ℕ → List ℕ → List ℕ
be_bytes zero value bytes = bytes
be_bytes (suc n) value bytes = be_bytes n (value / 256) (value % 256 ∷ bytes)

abbrev pub after : Option ℕ → Option ℕ
after none = none
after (some i) = some (suc i)

abbrev pub unwrap_or : ℕ → Option ℕ → ℕ
unwrap_or d none = d
unwrap_or d (some i) = i

-- `bytes.iter().position(|byte| *byte != 0)`
unfoldable pub position_nonzero : List ℕ → Option ℕ
position_nonzero [] = none
position_nonzero (b ∷ bs) = if not (Common.◌==◌ b 0) then some 0 else after (position_nonzero bs)

unfoldable pub significant : ℕ → List ℕ
unfolding be_bytes position_nonzero
significant value =
    let bytes = be_bytes 8 value [] in
    drop (unwrap_or (length bytes - 1) (position_nonzero bytes)) bytes

-- What each encoder appends to `out`.
unfoldable pub encode_uint : ℕ → List ℕ
encode_uint value =
    if ltb value 128 then value ∷ [] else (256 - length (significant value)) ∷ significant value

-- `(!value as u64) << 1 | 1` below zero, where `!value` is `-value - 1`, and `(value as u64) << 1`
unfoldable pub zigzag : ℤ → ℕ
zigzag (pos n) = n * 2 % 2 ^ 64
zigzag (negsuc n) = bit_or (n * 2 % 2 ^ 64) 1

unfoldable pub encode_int : ℤ → List ℕ
unfolding zigzag
encode_int value = encode_uint (zigzag value)

unfoldable pub encode_string : Text → List ℕ
encode_string value = encode_uint (length (as_bytes value)) ++ as_bytes value

unfoldable pub message : List ℕ → List ℕ
message body = encode_uint (length body) ++ body

unfoldable pub encode_interface_string : Text → List ℕ
encode_interface_string value =
    encode_string string_type_name
    ++ (encode_int (pos string_type_id) ++ message (encode_uint 0 ++ encode_string value))

unfoldable pub type_definition : ℕ → List ℕ
type_definition type_id =
    encode_int (negsuc (type_id - 1))
    ++ (encode_uint (wire_type_map_field + 1)
        ++ (encode_uint 1
            ++ (encode_uint 2
                ++ (encode_int (pos type_id)
                    ++ (encode_uint 0
                        ++ (encode_uint 1
                            ++ (encode_int (pos interface_type_id)
                                ++ (encode_uint 1
                                    ++ (encode_int (pos interface_type_id)
                                        ++ (encode_uint 0 ++ encode_uint 0))))))))))

unfoldable pub encode_entries : List (Text × Text) → List ℕ
encode_entries [] = []
encode_entries ((key, value) ∷ entries) =
    encode_interface_string key ++ (encode_interface_string value ++ encode_entries entries)

unfoldable pub map_value : ℕ → List (Text × Text) → List ℕ
map_value type_id entries =
    encode_int (pos type_id)
    ++ (encode_uint 0 ++ (encode_uint (length entries) ++ encode_entries entries))

unfoldable pub encode_token_map : Text → List ℕ
encode_token_map token =
    message (type_definition map_type_id)
    ++ message (map_value map_type_id ((codes "token", token) ∷ []))

-- A method of `Cursor`: the value that it returns, and the bytes that it leaves.
abbrev pub Read : Type 0 → Type 0
Read A = List ℕ → Result (A × List ℕ) GobError

infixl 5 ◌>>=◌ ◌>>◌
abbrev pub continue :
    {A B : Type 0} → (A → Read B) → Result (A × List ℕ) GobError → Result (B × List ℕ) GobError
continue f (err e) = err e
continue f (ok (a, bytes)) = f a bytes

abbrev pub ◌>>=◌ : {A B : Type 0} → Read A → (A → Read B) → Read B
◌>>=◌ m f bytes = continue f (m bytes)

abbrev pub ◌>>◌ : {A B : Type 0} → Read A → Read B → Read B
m >> n = m >>= λ _. n

abbrev pub pure : {A : Type 0} → A → Read A
pure a bytes = ok (a, bytes)

abbrev pub fail : {A : Type 0} → GobError → Read A
fail e bytes = err e

abbrev pub lift : {A : Type 0} → Result A GobError → Read A
lift (err e) bytes = err e
lift (ok a) bytes = ok (a, bytes)

-- `Cursor::take`
unfoldable pub take_bytes : ℕ → Read (List ℕ)
take_bytes count bytes =
    if ltb (length bytes) count then err truncated else ok (take count bytes, drop count bytes)

-- `take(1)?.first()`
unfoldable pub first_byte : Read ℕ
first_byte [] = err truncated
first_byte (b ∷ bytes) = ok (b, bytes)

-- `value = (value << 8) | u64::from(*byte)`
unfoldable pub be_value : ℕ → List ℕ → ℕ
be_value value [] = value
be_value value (byte ∷ bytes) = be_value (bit_or (value * 256 % 2 ^ 64) byte) bytes

unfoldable pub read_rest : ℕ → Read ℕ
unfolding take_bytes be_value
read_rest first = do bytes ← take_bytes (256 - first); pure (be_value 0 bytes)

unfoldable pub uint : Read ℕ
unfolding first_byte read_rest
uint = do
  first ← first_byte
  if ltb first 128
      then pure first
      else if ltb 8 (256 - first)
      then fail integer_too_large
      else read_rest first

unfoldable pub unzigzag : ℕ → ℤ
unzigzag raw = if Common.◌==◌ (raw % 2) 1 then negsuc (raw / 2) else pos (raw / 2)

unfoldable pub int : Read ℤ
int = do raw ← uint; pure (unzigzag raw)

unfoldable pub string : Read Text
string = do len ← uint; bytes ← take_bytes len; lift (ok_or not_utf8 (from_utf8 bytes))

unfoldable pub read_message : Read (List ℕ)
read_message = do len ← uint; take_bytes len

unfoldable pub expect_uint : ℕ → String → Read (Unit {0})
expect_uint expected what = do
  value ← uint
  if Common.◌==◌ value expected then pure tt else fail (unexpected what)

abbrev pub same_ℤ : ℤ → ℤ → Bool
same_ℤ (pos m) (pos n) = Common.◌==◌ m n
same_ℤ (negsuc m) (negsuc n) = Common.◌==◌ m n
same_ℤ _ _ = false

-- `if cursor.int()? != expected`
unfoldable pub expect_int : ℕ → String → Read (Unit {0})
expect_int expected what = do
  value ← int
  if same_ℤ value (pos expected) then pure tt else fail (unexpected what)

-- `if !cursor.is_empty()`
unfoldable pub expect_end : Read (Unit {0})
expect_end [] = ok (tt, [])
expect_end (b ∷ bytes) = err trailing_bytes

-- What stands between the common type and the id: nothing, or the name of the map type.
unfoldable pub read_name : ℕ → Read (Unit {0})
read_name delta =
    if Common.◌==◌ delta 2
    then pure tt
    else if Common.◌==◌ delta 1
    then (do
      name ← string
      if name == map_type_name
          then expect_uint 1 "map type has no id"
          else fail (unexpected_type_name name))
    else fail (unexpected "map type has no id")

-- `-announced`, which wraps round at `i64::MIN`
abbrev pub negated : ℕ → ℤ
negated n = if Common.◌==◌ (suc n) (2 ^ 63) then negsuc n else pos (suc n)

unfoldable pub announced_id : ℤ → Read ℕ
announced_id (pos n) = fail (unexpected "first message is not a type definition")
announced_id (negsuc n) =
    if Common.◌==◌ (suc n) map_type_id || Common.◌==◌ (suc n) legacy_map_type_id
    then pure (suc n)
    else fail (unexpected_type_id (negated n))

unfoldable pub read_type_definition : Read ℕ
unfolding read_name announced_id
read_type_definition = do
  announced ← int
  type_id ← announced_id announced
  expect_uint (wire_type_map_field + 1) "type definition is not a map type"
  expect_uint 1 "map type has no common type"
  delta ← uint
  read_name delta
  expect_int type_id "map type id does not match the definition"
  expect_uint 0 "common type is not terminated"
  expect_uint 1 "map type has no key type"
  expect_int interface_type_id "map key is not an interface"
  expect_uint 1 "map type has no element type"
  expect_int interface_type_id "map element is not an interface"
  expect_uint 0 "map type is not terminated"
  expect_uint 0 "wire type is not terminated"
  expect_end
  pure type_id

-- The message inside an interface value is read by a cursor of its own.
unfoldable pub read_inner : Read Text
read_inner = do
  expect_uint 0 "interface value has no singleton delta"
  value ← string
  expect_end
  pure value

-- A read by a cursor over other bytes: its value, and the bytes of this cursor as they are.
abbrev pub within : {A : Type 0} → Read A → List ℕ → Read A
within m inner bytes = continue (λ a _. ok (a, bytes)) (m inner)

unfoldable pub read_interface_string : Read Text
read_interface_string = do
  name ← string
  if name == string_type_name
      then (do
        expect_int string_type_id "interface value is not a string"
        inner ← read_message
        within read_inner inner)
      else fail (unexpected_type_name name)

-- The loop of `read_map_value`; every round takes bytes or fails.
-- The source reserves room for the count first, which is left out.
unfoldable pub read_entries : ℕ → Read (List (Text × Text))
read_entries zero = pure []
read_entries (suc count) = do
  key ← read_interface_string
  value ← read_interface_string
  entries ← read_entries count
  pure ((key, value) ∷ entries)

unfoldable pub read_map_value : ℕ → Read (List (Text × Text))
read_map_value type_id = do
  expect_int type_id "value message has a different type id"
  expect_uint 0 "singleton delta is missing"
  count ← uint
  entries ← read_entries count
  expect_end
  pure entries

unfoldable pub decode_string_map : Read (List (Text × Text))
decode_string_map = do
  definition ← read_message
  type_id ← within read_type_definition definition
  value ← read_message
  entries ← within (read_map_value type_id) value
  expect_end
  pure entries

abbrev pub token_entry : List (Text × Text) → Result Text GobError
token_entry entries = elim (find (λ e. e.0 == codes "token") entries) [
  | none ↦ err (unexpected "no token entry in the session map")
  | some e ↦ ok e.1
]

abbrev pub found_token : Result (List (Text × Text) × List ℕ) GobError → Result Text GobError
found_token (err e) = err e
found_token (ok (entries, rest)) = token_entry entries

unfoldable pub decode_token_map : List ℕ → Result Text GobError
decode_token_map stream = found_token (decode_string_map stream)
