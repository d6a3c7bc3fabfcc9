-- ===== src/Store/Bootstrap/Settles.antt =====
-- crates/lakefs-authz/src/store/bootstrap.rs: entries that a run of the loop finds in place.
pub mod Rows
pub mod Links
use lakefs_auth.Common.{
  ◌≡◌, refl, ◌∙◌, sym, ap, Bool, true, false, Option, none, some, List, [], ◌∷◌, All, arith, inl,
  inr, Bool-cases, Option-cases,
}
use lakefs_auth.Std.Order.{Text, text_ord, pair_ord, ◌==◌}
use lakefs_auth.Std.BTreeMap.{BTreeSet, get, contains_key, insert}
use lakefs_auth.Std.BTreeMap.Laws.{insert_present}
use lakefs_auth.Std.Result.{Result, ok, err, Result-cases}
use lakefs_auth.Store.Error.{StoreResult, StoreError, wrong_identity}
use lakefs_auth.Store.Types.{
  NewUser, NewGroup, NewPolicy, NewCredential, UserRecord, GroupRecord, PolicyRecord,
  CredentialRecord, same_identity_as, eq_option_self,
}
use lakefs_auth.Store.Mem.Inner.{
  Inner, insert_user, insert_group, insert_policy, insert_credential, user_record, check_user,
  require_user, require_group, require_policy,
}
use lakefs_auth.Store.Mem.Invariant.{IsValid}
use lakefs_auth.Store.Bootstrap.{
  Write, apply_all, apply_user, apply_credential, Tally, tally, continue, checked_identity,
}
use lakefs_auth.Store.Bootstrap.Inner.{
  inner_writer, insert_policy_if_missing, insert_group_if_missing, insert_user_if_missing,
  insert_membership_if_missing, insert_user_policy_if_missing, insert_group_policy_if_missing,
  insert_credential_if_missing,
}
use lakefs_auth.Store.Bootstrap.Grows.{
  Grows, Grows-self, Grows-trans, IsWithin-insert, IsWithin-add, get-insert_self,
}

pub continue_split :
    {A B W : Type 0} (f : A → Write W B) (r : StoreResult A × W) (b : B) (w : W)
    → continue f r ≡ (ok b, w)
    → (a : A) × (v : W) × (r ≡ (ok a, v)) × (f a v ≡ (ok b, w))
continue_split f (ok a, v) b w h = (a, v, refl, h)
continue_split f (err e, v) b w h = absurd (ground arith)

module _ {T : Type 0} where
  -- A step that succeeds leaves its entry in place and takes nothing away, an entry that is in place
  -- stays there, and a step that finds it skips it.
  pub record Settles {A : Type 0} (Present : A → Inner T → Type 0) (step : A → Write (Inner T) Bool)
      : Type 0 where
    pub first : (a : A) (s t : Inner T) (b : Bool) → step a s ≡ (ok b, t) → Grows s t × Present a t
    pub stays : (a : A) (s t : Inner T) → Grows s t → Present a s → Present a t
    pub again : (a : A) (s : Inner T) → IsValid s → Present a s → step a s ≡ (ok false, s)

  module _ {A : Type 0} (Present : A → Inner T → Type 0) (step : A → Write (Inner T) Bool)
      (settles : Settles Present step) where
    pub All-stays :
        (s t : Inner T)
        → Grows s t
        → (xs : List A) → All (λ a. Present a s) xs
        → All (λ a. Present a t) xs
    All-stays s t g [] h = tt
    All-stays s t g (a ∷ xs) (ha, h) = (settles.stays a s t g ha, All-stays s t g xs h)

    pub apply_all_first :
        (xs : List A) (counts after : Tally) (s t : Inner T)
        → apply_all step xs counts s ≡ (ok after, t)
        → Grows s t × All (λ a. Present a t) xs
    unfolding apply_all
    apply_all_first [] counts after s t h = (let e : s ≡ t = cc in rw (← e) (Grows-self s), tt)
    apply_all_first (a ∷ xs) counts after s t h =
        let (done, mid, one, rest) = continue_split _ (step a s) after t h in
        let (grown, there) = settles.first a s mid done one in
        let (more, others) = apply_all_first xs (tally counts done) after mid t rest in
        (Grows-trans s mid t grown more, (settles.stays a mid t more there, others))

    pub apply_all_again :
        (xs : List A) (counts : Tally) (s : Inner T)
        → IsValid s
        → All (λ a. Present a s) xs
        → (after : Tally) × (apply_all step xs counts s ≡ (ok after, s)) × (after.0 ≡ counts.0)
    unfolding apply_all tally
    apply_all_again [] counts s valid h = (counts, refl, refl)
    apply_all_again (a ∷ xs) counts s valid (ha, h) =
        let (after, run, same) = apply_all_again xs (tally counts false) s valid h in
        (after, rw (settles.again a s valid ha) run, same)
