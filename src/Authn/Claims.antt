-- ===== src/Authn/Claims.antt =====
-- crates/lakefs-authn/src/oidc/claims.rs and `GroupsClaim` of oidc/types.rs: the claims of a verified ID
-- token. A JSON number is the text that `Display` writes of it, compact JSON is a parameter.
use lakefs_auth.Common.{
  ℕ, Bool, true, false, Option, none, some, List, [], ◌∷◌, ◌++◌, filter_map, is_empty,
  if◌then◌else◌,
}
use lakefs_auth.Std.Order.{Text, text_ord, ◌==◌}
use lakefs_auth.Std.BTreeMap.{BTreeMap, get}
use lakefs_auth.Std.Str.{codes, trim, split, join}
use lakefs_auth.Std.Result.{Result, ok, err, ok_or, ◌>>=◌, ◌>>◌}
use lakefs_auth.Core.Text.{non_blank}

-- `serde_json::Value`
mutual
  pub data Value : Type 0 where
    null : Value
    bool : Bool → Value
    number : Text → Value
    string : Text → Value
    array : Items → Value
    object : Members → Value

  pub data Items : Type 0 where
    end : Items
    item : Value → Items → Items

  pub data Members : Type 0 where
    done : Members
    member : Text → Value → Members → Members

abbrev pub Claims : Type 0
Claims = BTreeMap Text Value

pub data ClaimsError : Type 0 where
  malformed not_base64 not_an_object : ClaimsError

-- What the JSON parser makes of the bytes: an object's members, or nothing.
abbrev pub payload_part : List Text → Result Text ClaimsError
payload_part (header ∷ payload ∷ signature ∷ []) = ok payload
payload_part _ = err malformed

unfoldable pub raw_payload :
    (Text → Option (List ℕ)) → (List ℕ → Option Claims) → Text → Result Claims ClaimsError
unfolding split
raw_payload decode object_of token = do
  payload ← payload_part (split b'.' token)
  bytes ← ok_or not_base64 (decode payload)
  ok_or not_an_object (object_of bytes)

abbrev pub onto_texts : Text → Option (List Text) → Option (List Text)
onto_texts text none = none
onto_texts text (some texts) = some (text ∷ texts)

-- The items, where all of them are strings.
unfoldable pub strings : Items → Option (List Text)
strings end = some []
strings (item (string text) items) = onto_texts text (strings items)
strings (item _ items) = none

abbrev pub bool_text : Bool → Text
bool_text true = codes "true"
bool_text false = codes "false"

-- `Option::filter(|text| !text.trim().is_empty())`
abbrev pub unless_blank : Option Text → Option Text
unless_blank none = none
unless_blank (some text) = if is_empty (trim text) then none else some text

pub data GroupsClaim : Type 0 where
  list : List Text → GroupsClaim
  text : Text → GroupsClaim

-- `CommaList::from_str`
unfoldable pub comma_list : Text → List Text
comma_list value = filter_map non_blank (split b',' value)

unfoldable pub values : GroupsClaim → List Text
unfolding comma_list
values (list items) = filter_map non_blank items
values (text value) = comma_list value

abbrev pub as_list : Option (List Text) → Option GroupsClaim
as_list none = none
as_list (some items) = some (list items)

-- `GroupsClaim::deserialize`: a list of strings, or a string
unfoldable pub deserialize_groups : Value → Option GroupsClaim
unfolding strings
deserialize_groups (array items) = as_list (strings items)
deserialize_groups (string value) = some (text value)
deserialize_groups _ = none

module _ (to_json : Value → Text) where
  abbrev pub array_text : Items → Option (List Text) → Text
  array_text items none = to_json (array items)
  array_text items (some texts) = join (codes ",") texts

  unfoldable pub flatten_value : Value → Option Text
  unfolding strings join
  flatten_value null = none
  flatten_value (string value) = some value
  flatten_value (bool flag) = some (bool_text flag)
  flatten_value (number value) = some value
  flatten_value (array items) = some (array_text items (strings items))
  flatten_value (object members) = some (to_json (object members))

  -- `and_then(flatten_value)`
  abbrev pub flattened : Option Value → Option Text
  flattened none = none
  flattened (some value) = flatten_value value

  abbrev pub kept_claim : Text → Option Text → Option (Text × Text)
  kept_claim name none = none
  kept_claim name (some value) = some (name, value)

  -- The map is in order already, so the entries that are kept are its collection.
  unfoldable pub flatten_claims : Claims → BTreeMap Text Text
  unfolding flatten_value
  flatten_claims claims = filter_map (λ (name, value). kept_claim name (flatten_value value)) claims

  unfoldable pub claim_text : Claims → Text → Option Text
  unfolding flatten_value
  claim_text claims name = unless_blank (flattened (get name claims))

  abbrev pub or_next : Text → Option Text → Option (Text × Text) → Option (Text × Text)
  or_next name none rest = rest
  or_next name (some value) rest = some (name, value)

  unfoldable pub first_claim : Claims → List Text → Option (Text × Text)
  unfolding claim_text
  first_claim claims [] = none
  first_claim claims (name ∷ names) =
      or_next name (claim_text claims name) (first_claim claims names)

  abbrev pub same_text : Option Text → Text → Bool
  same_text none want = false
  same_text (some value) want = value == want

  -- The messages name the claim in its debug form, a parameter.
  abbrev pub check_claim : (Text → Text) → Text → Text → Option Value → Result (Unit {0}) Text
  check_claim debug name want none = err (codes "claim " ++ (debug name ++ codes " is missing"))
  check_claim debug name want (some value) =
      if same_text (flatten_value value) want
      then ok tt
      else err (codes "claim " ++ (debug name ++ codes " does not have the expected value"))

  unfoldable pub validate_claims :
      (Text → Text) → Claims → BTreeMap Text Text → Result (Unit {0}) Text
  unfolding flatten_value
  validate_claims debug claims [] = ok tt
  validate_claims debug claims ((name, want) ∷ expected) =
      check_claim debug name want (get name claims) >> validate_claims debug claims expected
