-- ===== src/Service/PolicyRequests.antt =====
-- crates/lakefs-authz/src/service.rs: the policies. `serialized` is `serde_json::to_string` of a
-- statement (the empty text when it fails), and `from_str` reads a JSON list of resources.
use lakefs_auth.Common.{Bool, true, false, ◌&&◌, Option, none, some, List, [], ◌∷◌, map}
use lakefs_auth.Common.Int.{ℤ}
use lakefs_auth.Std.Order.{Text, text_ord, ◌==◌}
use lakefs_auth.Std.Str.{codes}
use lakefs_auth.Std.Sort.{sort}
use lakefs_auth.Std.Result.{Result, ok, err, ◌>>=◌, ◌>>◌, map_err}
use lakefs_auth.Core.Error.{ApiError}
use lakefs_auth.Core.Model.{Policy, Statement}
use lakefs_auth.Core.Validate.{validate_entity_id}
use lakefs_auth.Store.Error.{to_api_error}
use lakefs_auth.Store.Types.{PolicyRecord, NewPolicy}
use lakefs_auth.Store.Types
use lakefs_auth.Store.Mem.Inner.{Inner}
use lakefs_auth.Store.Mem.Policies
use lakefs_auth.Service.{map_ok, from_unix, create_or_existing, same_if_given, or_else}

-- `Vec<String> == Vec<String>`
unfoldable pub same_texts : List Text → List Text → Bool
same_texts [] [] = true
same_texts (s ∷ ss) (t ∷ ts) = s == t && same_texts ss ts
same_texts _ _ = false

abbrev pub sorted_actions : Statement → Statement
sorted_actions statement = record statement { action = sort statement.action }

unfoldable pub canonical_statements : (Statement → Text) → List Statement → List Text
unfolding sort
canonical_statements serialized statements =
    sort (map (λ statement. serialized (sorted_actions statement)) statements)

module _ {T : Type 0} where
  abbrev pub policy_to_wire : (T → ℤ) → PolicyRecord T → Policy
  policy_to_wire as_second row = record {
    name = row.name;
    creation_date = some (as_second row.creation_date);
    statement = row.statement;
    acl = row.acl;
  }

  unfoldable pub same_policy : (Statement → Text) → NewPolicy T → PolicyRecord T → Bool
  unfolding same_texts canonical_statements
  same_policy serialized requested existing =
      same_texts (canonical_statements serialized requested.statement)
        (canonical_statements serialized existing.statement)
      && same_if_given requested.acl existing.acl

  abbrev pub date_or : (ℤ → Option T) → Option ℤ → T → Result T ApiError
  date_or from_second none fallback = ok fallback
  date_or from_second (some seconds) fallback =
      from_unix from_second (codes "creation_date") seconds

  -- The insert of a row that was validated, the row read again, and the answer.
  abbrev pub policy_inserted :
      (Statement → Text)
      → (T → ℤ)
      → Inner T
      → Result (NewPolicy T) ApiError
      → Result Policy ApiError × Inner T
  policy_inserted serialized as_second s (err e) = (err e, s)
  policy_inserted serialized as_second s (ok requested) =
      let (created, s') = Policies.create_policy requested s in
      let reread = Policies.get_policy requested.name s' in
      (
        map_ok (policy_to_wire as_second)
            (create_or_existing created reread (same_policy serialized requested)),
        s',
      )

  -- The write of a row that was validated, and the answer.
  abbrev pub policy_updated :
      (T → ℤ) → Inner T → Result (NewPolicy T) ApiError → Result Policy ApiError × Inner T
  policy_updated as_second s (err e) = (err e, s)
  policy_updated as_second s (ok row) =
      let (updated, s') = Policies.update_policy row s in
      (map_ok (policy_to_wire as_second) (map_err to_api_error updated), s')

module _ {T : Type 0} (from_second : ℤ → Option T) (from_str : Text → Result (List Text) Text) where
  unfoldable pub validated_policy : Text → Policy → T → Option Text → Result (NewPolicy T) ApiError
  unfolding Types.validated_policy
  validated_policy name body fallback_creation_date fallback_acl = do
    creation_date ← date_or from_second body.creation_date fallback_creation_date
    Types.validated_policy from_str name body.statement (or_else body.acl fallback_acl)
        creation_date

  unfoldable pub create_policy :
      (Statement → Text) → (T → ℤ) → T → Policy → Inner T → Result Policy ApiError × Inner T
  unfolding validated_policy Policies.create_policy Policies.get_policy create_or_existing
      same_policy
  create_policy serialized as_second now body s =
      policy_inserted serialized as_second s (validated_policy body.name body now none)

  unfoldable pub update_policy :
      (T → ℤ) → Text → Policy → Inner T → Result Policy ApiError × Inner T
  unfolding validate_entity_id Policies.get_policy validated_policy Policies.update_policy
      to_api_error
  update_policy as_second name body s = policy_updated as_second s (do
    validate_entity_id "policy" name
    existing ← map_err to_api_error (Policies.get_policy name s)
    validated_policy name body existing.creation_date existing.acl)
