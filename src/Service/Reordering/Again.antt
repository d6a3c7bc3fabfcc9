-- ===== src/Service/Reordering/Again.antt =====
-- crates/lakefs-authz/src/service.rs: the two creates of one policy.
use lakefs_auth.Common.{
  ◌≡◌, refl, sym, ap, ◌∙◌, true, ◌&&◌, Option, none, some, List, inl, inr, arith, Bool-cases,
}
use lakefs_auth.Common.Int.{ℤ}
use lakefs_auth.Std.Order.{Text, text_ord}
use lakefs_auth.Std.Reorder.{Reordered}
use lakefs_auth.Std.BTreeMap.{contains_key}
use lakefs_auth.Std.BTreeMap.Laws.{get-insert}
use lakefs_auth.Std.Result.{Result, ok, Result-cases}
use lakefs_auth.Core.Model.{Policy, Statement}
use lakefs_auth.Core.Validate.{validate_policy, validate_entity_id}
use lakefs_auth.Store.Types.{PolicyRecord, NewPolicy, eq_option_self}
use lakefs_auth.Store.Types
use lakefs_auth.Store.Mem.Inner.{Inner, insert_policy}
use lakefs_auth.Store.Mem.Policies
use lakefs_auth.Service.{create_or_existing, existing_or_conflict, same_if_given}
use lakefs_auth.Service.PolicyRequests.{
  date_or, same_texts, canonical_statements, same_policy, validated_policy, policy_inserted,
  create_policy,
}
use lakefs_auth.Service.Reordering.{
  IsSame, canonical_statements-Reordered, same_texts_self, validate_statements-Reordered,
}

module _ {T : Type 0} (serialized : Statement → Text) (as_second : T → ℤ) where
  abbrev in_order : NewPolicy T → T → List Statement → NewPolicy T
  in_order row date ts = record {
    name = row.name;
    creation_date = date;
    statement = ts;
    acl = row.acl;
  }

  -- Rows that differ in order match the same stored rows.
  same_policy-in_order :
      (row : NewPolicy T) (date : T) (ts : List Statement)
      → Reordered IsSame row.statement ts
      → same_policy serialized (in_order row date ts) ≡ same_policy serialized row
  unfolding same_policy
  same_policy-in_order row date ts p =
      ap
        (λ c existing.
          same_texts c (canonical_statements serialized existing.statement)
          && same_if_given row.acl existing.acl)
        (sym (canonical_statements-Reordered serialized row.statement ts p))

  same_policy_self :
      (row : NewPolicy T)
      → same_policy serialized row (record {
        name = row.name;
        creation_date = row.creation_date;
        statement = row.statement;
        acl = row.acl;
      })
        ≡ true
  unfolding same_policy
  same_policy_self row = ground (
    arith,
    same_texts_self (canonical_statements serialized row.statement),
    eq_option_self row.acl,
  )

  again_inserted :
      (row : NewPolicy T) (date : T) (ts : List Statement) (s : Inner T) (policy : Policy)
      → same_policy serialized (in_order row date ts) ≡ same_policy serialized row
      → (policy_inserted serialized as_second s (ok row)).0 ≡ ok policy
      → policy_inserted serialized as_second
          (policy_inserted serialized as_second s (ok row)).1
          (ok (in_order row date ts))
        ≡ (ok policy, (policy_inserted serialized as_second s (ok row)).1)
  unfolding Policies.create_policy insert_policy Policies.get_policy create_or_existing
      existing_or_conflict
  again_inserted row date ts s policy same h =
      elim (Bool-cases (contains_key row.name s.policies)) [
        | inl there ↦ ground (arith, there, same, h)
        | inr absent ↦ ground (
          arith,
          absent,
          h,
          same,
          same_policy_self row,
          get-insert row.name row.name
              (record {
                name = row.name;
                creation_date = row.creation_date;
                statement = row.statement;
                acl = row.acl;
              })
              s.policies,
          text_ord.cmp_self row.name,
        )
      ]

module _ {T : Type 0} (from_second : ℤ → Option T) (from_str : Text → Result (List Text) Text) where
  abbrev reordered : Policy → List Statement → Policy
  reordered body ts = record body { statement = ts }

  date_or_either :
      (date : Option ℤ) (first second now : T)
      → date_or from_second date first ≡ ok now
      → (now' : T) × (date_or from_second date second ≡ ok now')
  date_or_either none first second now h = (second, refl)
  date_or_either (some seconds) first second now h = (now, h)

  validate_policy-Reordered :
      (name : Text) (ss ts : List Statement)
      → Reordered IsSame ss ts
      → validate_policy from_str name ss ≡ ok tt
      → validate_policy from_str name ts ≡ ok tt
  unfolding validate_policy
  validate_policy-Reordered name ss ts p h =
      elim (Result-cases (validate_entity_id "policy" name)) [
        | inl (tt, named) ↦
            rw named (validate_statements-Reordered from_str ss ts p (ground (arith, named, h)))
        | inr (e, refused) ↦ absurd (ground (arith, refused, h))
      ]

  abbrev IsReread : Policy → List Statement → T → NewPolicy T → Type 0
  IsReread body ts second row =
      (row.statement ≡ body.statement)
      × ((date : T) × (validated_policy from_second from_str body.name (reordered body ts) second
              none
            ≡ ok (record { name = row.name; creation_date = date; statement = ts; acl = row.acl })))

  -- The rules do not look at the order.
  validated_policy-Reordered :
      (first second : T) (body : Policy) (ts : List Statement) (row : NewPolicy T)
      → Reordered IsSame body.statement ts
      → validated_policy from_second from_str body.name body first none ≡ ok row
      → IsReread body ts second row
  unfolding validated_policy Types.validated_policy
  validated_policy-Reordered first second body ts row p h =
      elim (Result-cases (date_or from_second body.creation_date first)) [
        | inr (e, undated) ↦ absurd (ground (arith, undated, h))
        | inl (now, dated) ↦
            elim (Result-cases (validate_policy from_str body.name body.statement)) [
              | inr (e, refused) ↦ absurd (ground (arith, dated, refused, h))
              | inl (tt, accepted) ↦
                  (let (now', dated') = date_or_either body.creation_date first second now dated in
                    let accepted' =
                      validate_policy-Reordered body.name body.statement ts p accepted in
                    (
                      ground (arith, dated, accepted, h),
                      (now', ground (arith, dated, accepted, dated', accepted', h)),
                    ))
            ]
      ]

  -- A policy that was created is created again, its statements and their actions in another order:
  -- the answer is the same policy, and the store stays as it is.
  pub create_policy-create_policy :
      (serialized : Statement → Text) (as_second : T → ℤ) (first second : T) (body : Policy)
      (ts : List Statement) (s : Inner T) (policy : Policy)
      → Reordered IsSame body.statement ts
      → (create_policy from_second from_str serialized as_second first body s).0 ≡ ok policy
      → create_policy from_second from_str serialized as_second second
          (reordered body ts)
          (create_policy from_second from_str serialized as_second first body s).1
        ≡ (ok policy, (create_policy from_second from_str serialized as_second first body s).1)
  unfolding create_policy
  create_policy-create_policy serialized as_second first second body ts s policy p h =
      elim (Result-cases (validated_policy from_second from_str body.name body first none)) [
        | inr (e, refused) ↦ absurd (ground (arith, refused, h))
        | inl (row, accepted) ↦
            (let (kept, (date, accepted')) =
                validated_policy-Reordered first second body ts row p accepted in
              let moved : Reordered IsSame row.statement ts = rw kept p in
              let again =
                again_inserted serialized as_second row date ts s policy
                  (same_policy-in_order serialized as_second row date ts moved)
                  (ap (λ r. (policy_inserted serialized as_second s r).0) (sym accepted) ∙ h) in
              rw (accepted, accepted') again)
      ]
