-- ===== src/Core/Validate.antt =====
-- crates/lakefs-auth-core/src/validate.rs: the rules that mirror what lakeFS accepts.
use lakefs_auth.Common.{
  ℕ, Bool, true, false, not, ◌&&◌, ◌||◌, Option, none, some, List, [], ◌∷◌, ◌++◌, String, is_empty,
  any, ltb, if◌then◌else◌,
}
use lakefs_auth.Common
use lakefs_auth.Std.Order.{Text, text_ord, ◌==◌}
use lakefs_auth.Std.Str.{
  codes, len, contains_char, is_control, starts_with, ends_with, splitn, split_once,
}
use lakefs_auth.Std.Result.{Result, ok, err, ◌>>=◌, ◌>>◌}
use lakefs_auth.Core.Error.{ApiError, invalid}
use lakefs_auth.Core.Model.{Statement}

abbrev pub services : List Text
services =
    codes "fs"
    ∷ codes "auth"
    ∷ codes "ci"
    ∷ codes "retention"
    ∷ codes "branches"
    ∷ codes "pr"
    ∷ codes "catalog"
    ∷ []

abbrev pub all_resources : Text
all_resources = codes "*"

abbrev pub max_id_len : ℕ
max_id_len = 512

-- `list.contains(&text)`
abbrev pub contains : List Text → Text → Bool
contains list text = any (λ s. s == text) list

abbrev pub is_wildcard : ℕ → Bool
is_wildcard c = Common.◌==◌ c b'*' || Common.◌==◌ c b'?'

unfoldable pub validate_entity_id : String → Text → Result (Unit {0}) ApiError
unfolding len contains_char is_control
validate_entity_id kind id =
    if is_empty id
    then err (invalid (codes kind ++ codes " id must not be empty"))
    else if ltb max_id_len (len id)
    then err (invalid (codes kind ++ codes " id is longer than 512 bytes"))
    else if id == codes "." || id == codes ".."
    then err (invalid (codes kind ++ codes " id must not be '.' or '..'"))
    else if contains_char b'/' id
    then err (invalid (codes kind ++ codes " id must not contain '/'"))
    else if any is_wildcard id
    then err (invalid (codes kind ++ codes " id must not contain '*' or '?'"))
    else if any is_control id
    then err (invalid (codes kind ++ codes " id must not contain control characters"))
    else ok tt

-- the `let (Some(service), Some(name), None) = ... else` of `validate_action`
action_parts : Text → List Text → Result (Text × Text) ApiError
action_parts action (service ∷ name ∷ []) = ok (service, name)
action_parts action _ = err (invalid (codes "action must have the form service:Action: " ++ action))

unfoldable pub validate_action : Text → Result (Unit {0}) ApiError
unfolding splitn split_once action_parts
validate_action action = do
  (service, name) ← action_parts action (splitn 3 b':' action)
  if not (contains services service)
      then err (invalid (codes "unknown service in action: " ++ action))
      else if is_empty name
      then err (invalid (codes "action name must not be empty: " ++ action))
      else ok tt

-- `parts.len() != 6 || parts[0] != "arn"`, and the tests on the other parts
arn_parts : Text → List Text → Result (Unit {0}) ApiError
arn_parts text (arn ∷ partition ∷ service ∷ region ∷ account ∷ resource ∷ []) =
    if not (arn == codes "arn")
    then err (invalid (codes "invalid ARN: " ++ text))
    else if not (partition == codes "lakefs")
    then err (invalid (codes "ARN partition must be lakefs: " ++ text))
    else if is_empty service
    then err (invalid (codes "ARN service must not be empty: " ++ text))
    else if is_empty resource
    then err (invalid (codes "ARN resource must not be empty: " ++ text))
    else ok tt
arn_parts text _ = err (invalid (codes "invalid ARN: " ++ text))

unfoldable pub validate_arn : Text → Result (Unit {0}) ApiError
unfolding splitn split_once arn_parts
validate_arn text = arn_parts text (splitn 6 b':' text)

-- `iter().try_for_each(f)`
abbrev pub try_for_each {ℓ} :
    {A : Type ℓ} → (A → Result (Unit {0}) ApiError) → List A → Result (Unit {0}) ApiError
try_for_each f [] = ok tt
try_for_each f (x ∷ xs) = f x >> try_for_each f xs

abbrev pub validate_list_item : Text → Result (Unit {0}) ApiError
validate_list_item item = if item == all_resources then ok tt else validate_arn item

-- `from_str` is `serde_json::from_str::<Vec<String>>`: a list, or the text of its error.
module _ (from_str : Text → Result (List Text) Text) where
  resource_list : Result (List Text) Text → Result (Unit {0}) ApiError
  resource_list (err e) =
      err (invalid (codes "resource list is not a JSON array of strings: " ++ e))
  resource_list (ok list) =
      if is_empty list
      then err (invalid (codes "resource list must not be empty"))
      else try_for_each validate_list_item list

  pub validate_resource : Text → Result (Unit {0}) ApiError
  unfolding resource_list starts_with ends_with
  validate_resource resource =
      if resource == all_resources
      then ok tt
      else if starts_with resource (codes "[") && ends_with resource (codes "]")
      then resource_list (from_str resource)
      else validate_arn resource

  -- A condition is only logged about.
  unfoldable pub validate_statement : Statement → Result (Unit {0}) ApiError
  unfolding validate_resource
  validate_statement statement =
      if is_empty statement.action
      then err (invalid (codes "statement needs at least one action"))
      else try_for_each validate_action statement.action >> validate_resource statement.resource

  unfoldable pub validate_statements : List Statement → Result (Unit {0}) ApiError
  unfolding validate_statement
  validate_statements statements =
      if is_empty statements
      then err (invalid (codes "policy needs at least one statement"))
      else try_for_each validate_statement statements

  unfoldable pub validate_policy : Text → List Statement → Result (Unit {0}) ApiError
  unfolding validate_statements validate_entity_id
  validate_policy name statements =
      validate_entity_id "policy" name >> validate_statements statements
