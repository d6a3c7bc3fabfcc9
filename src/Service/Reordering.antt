-- ===== src/Service/Reordering.antt =====
-- crates/lakefs-authz/src/service.rs: a create of a policy that is sent again in another order.
pub mod Again
use lakefs_auth.Common.{
  ◌≡◌, refl, sym, ap, ◌∙◌, Bool, true, false, ◌&&◌, Option, none, some, List, [], ◌∷◌, inl, inr,
  All, map, is_empty, arith, Bool-cases,
}
use lakefs_auth.Common.Int.{ℤ}
use lakefs_auth.Std.Order.{Text, text_ord, ◌==◌}
use lakefs_auth.Std.Sort.{sort}
use lakefs_auth.Std.Reorder.{
  Reordered, nil, cons, swap, trans, All-Reordered, map-Reordered, sort-Reordered,
}
use lakefs_auth.Std.BTreeMap.{contains_key}
use lakefs_auth.Std.BTreeMap.Laws.{get-insert}
use lakefs_auth.Std.Result.{Result, ok, err, ◌>>=◌, Result-cases}
use lakefs_auth.Core.Error.{ApiError}
use lakefs_auth.Core.Model.{Policy, Statement, Effect, Condition}
use lakefs_auth.Core.Validate.{
  try_for_each, validate_action, validate_resource, validate_statement, validate_statements,
  validate_policy, validate_entity_id,
}
use lakefs_auth.Store.Types.{PolicyRecord, NewPolicy}
use lakefs_auth.Store.Types
use lakefs_auth.Store.Mem.Inner.{Inner, insert_policy}
use lakefs_auth.Store.Mem.Policies
use lakefs_auth.Service.{create_or_existing, existing_or_conflict, same_if_given, from_unix}
use lakefs_auth.Service.PolicyRequests.{
  date_or, same_texts, sorted_actions, canonical_statements, same_policy, validated_policy,
  policy_inserted, create_policy,
}

-- The same statement, its actions in some order.
abbrev pub IsSame : Statement → Statement → Type 0
IsSame a b =
    (a.effect ≡ b.effect)
    × (a.resource ≡ b.resource)
    × (a.condition ≡ b.condition)
    × Reordered (◌≡◌ {A = Text}) a.action b.action

abbrev made : Effect → Text → Option Condition → List Text → Statement
made effect resource condition action = record {
  effect = effect;
  resource = resource;
  action = action;
  condition = condition;
}

sorted_actions-IsSame : (a b : Statement) → IsSame a b → sorted_actions a ≡ sorted_actions b
sorted_actions-IsSame a b (he, hr, hc, ha) =
    ap (λ e. made e a.resource a.condition (sort a.action)) he
    ∙ ap (λ r. made b.effect r a.condition (sort a.action)) hr
    ∙ ap (λ c. made b.effect b.resource c (sort a.action)) hc
    ∙ ap (made b.effect b.resource b.condition) (sort-Reordered a.action b.action ha)

pub canonical_statements-Reordered :
    (serialized : Statement → Text) (ss ts : List Statement)
    → Reordered IsSame ss ts
    → canonical_statements serialized ss ≡ canonical_statements serialized ts
unfolding canonical_statements
canonical_statements-Reordered serialized ss ts h =
    let image : Statement → Text = λ statement. serialized (sorted_actions statement) in
    sort-Reordered (map image ss) (map image ts)
      (map-Reordered IsSame image (λ a b s. ap serialized (sorted_actions-IsSame a b s)) ss ts h)

pub same_texts_self : (ts : List Text) → same_texts ts ts ≡ true
unfolding same_texts
same_texts_self [] = refl
same_texts_self (t ∷ ts) = ground (arith, text_ord.cmp_self t, same_texts_self ts)

module _ {A : Type 0} (f : A → Result (Unit {0}) ApiError) where
  abbrev Passes : A → Type 0
  Passes x = f x ≡ ok tt

  All-try_for_each : (xs : List A) → try_for_each f xs ≡ ok tt → All Passes xs
  All-try_for_each [] h = tt
  All-try_for_each (x ∷ xs) h = elim (Result-cases (f x)) [
    | inl (tt, passed) ↦ (passed, All-try_for_each xs (ground (arith, passed, h)))
    | inr (e, failed) ↦ absurd (ground (arith, failed, h))
  ]

  try_for_each-All : (xs : List A) → All Passes xs → try_for_each f xs ≡ ok tt
  try_for_each-All [] h = refl
  try_for_each-All (x ∷ xs) (hx, h) = rw (hx) (try_for_each-All xs h)

  try_for_each-Reordered :
      (R : A → A → Type 0)
      → ((a b : A) → R a b → Passes a → Passes b)
      → (xs ys : List A) → Reordered R xs ys
      → try_for_each f xs ≡ ok tt
      → try_for_each f ys ≡ ok tt
  try_for_each-Reordered R step xs ys p h =
      try_for_each-All ys (All-Reordered R Passes step xs ys p (All-try_for_each xs h))

module _ {A : Type 0} (R : A → A → Type 0) where
  is_empty-Reordered : (xs ys : List A) → Reordered R xs ys → is_empty xs ≡ is_empty ys
  is_empty-Reordered _ _ nil = refl
  is_empty-Reordered _ _ (cons r p) = refl
  is_empty-Reordered _ _ swap = refl
  is_empty-Reordered _ _ (trans {xs} {ys} {zs} p q) =
      is_empty-Reordered xs ys p ∙ is_empty-Reordered ys zs q

module _ (from_str : Text → Result (List Text) Text) where
  validate_statement-IsSame :
      (a b : Statement)
      → IsSame a b
      → validate_statement from_str a ≡ ok tt
      → validate_statement from_str b ≡ ok tt
  unfolding validate_statement
  validate_statement-IsSame a b (he, hr, hc, ha) h = elim (Bool-cases (is_empty a.action)) [
    | inl empty ↦ absurd (ground (arith, empty, h))
    | inr some_actions ↦ elim (Result-cases (try_for_each validate_action a.action)) [
      | inr (e, failed) ↦ absurd (ground (arith, some_actions, failed, h))
      | inl (tt, passed) ↦
          (let named : validate_resource from_str a.resource ≡ ok tt =
              ground (arith, some_actions, passed, h) in
            let full : is_empty b.action ≡ false =
              sym (is_empty-Reordered (◌≡◌ {A = Text}) a.action b.action ha) ∙ some_actions in
            let all_pass : try_for_each validate_action b.action ≡ ok tt =
              try_for_each-Reordered validate_action (◌≡◌ {A = Text})
                (λ s t e p. sym (ap validate_action e) ∙ p) a.action b.action ha passed in
            rw (full, all_pass) (sym (ap (validate_resource from_str) hr) ∙ named))
    ]
  ]

  pub validate_statements-Reordered :
      (ss ts : List Statement)
      → Reordered IsSame ss ts
      → validate_statements from_str ss ≡ ok tt
      → validate_statements from_str ts ≡ ok tt
  unfolding validate_statements
  validate_statements-Reordered ss ts p h = elim (Bool-cases (is_empty ss)) [
    | inl empty ↦ absurd (ground (arith, empty, h))
    | inr some_statements ↦
        (let full : is_empty ts ≡ false =
            sym (is_empty-Reordered IsSame ss ts p) ∙ some_statements in
          rw full (
            try_for_each-Reordered (validate_statement from_str) IsSame validate_statement-IsSame ss
              ts p (ground (arith, some_statements, h))))
  ]
