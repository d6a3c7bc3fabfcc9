-- ===== src/Service/Repeats/Claims.antt =====
-- crates/lakefs-authz/src/service.rs: the claim of a token id that was claimed before, with calls of the
-- store in between.
use lakefs_auth.Common.{
  ◌≡◌, Bool, Bool-cases, inl, inr, true, false, Option, some, List, [], ◌∷◌, All, arith, is_empty,
}
use lakefs_auth.Common.Int.{ℤ}
use lakefs_auth.Std.Order.{Text, text_ord, ◌==◌}
use lakefs_auth.Std.Str.{codes}
use lakefs_auth.Std.BTreeMap.{BTreeMap, get, retain}
use lakefs_auth.Std.BTreeMap.Laws.{get-insert}
use lakefs_auth.Std.Result.{ok, err}
use lakefs_auth.Core.Error.{ApiError}
use lakefs_auth.Core.Model.{ClaimTokenId}
use lakefs_auth.Store.Mem.Inner.{Inner}
use lakefs_auth.Store.Mem.Calls
use lakefs_auth.Store.Mem.Calls.{Call, run, run_all}
use lakefs_auth.Store.Mem.Users
use lakefs_auth.Store.Mem.Groups
use lakefs_auth.Store.Mem.Policies
use lakefs_auth.Store.Mem.Credentials
use lakefs_auth.Service.{claim_token_id, from_unix}

-- A filter of the values keeps the entry of a key when it keeps its value.
get-retain_kept :
    {T : Type 0} (p : T → Bool) (k : Text) (v : T) (m : BTreeMap Text T)
    → get k m ≡ some v
    → p v ≡ true
    → get k (retain (λ _. p) m) ≡ some v
unfolding get retain
get-retain_kept p k v [] h kept = absurd (ground arith)
get-retain_kept p k v ((j, w) ∷ m) h kept = elim (Bool-cases (j == k)) [
  | inl same ↦ ground (arith, same, h, kept)
  | inr other ↦ ground (arith, other, h, get-retain_kept p k v m (ground (arith, other, h)) kept)
]

module _ {T : Type 0} (later : T → T → Bool) (expires_at : T) where
  -- A cleanup that runs before the claim expires; any other call.
  abbrev pub IsBefore : Call T → Type 0
  IsBefore (Calls.delete_expired_token_ids now) = later expires_at now ≡ true
  IsBefore _ = Unit

module _ {T : Type 0} (later : T → T → Bool) (token_id : Text) (expires_at : T) where
  abbrev pub IsClaimed : Inner T → Type 0
  IsClaimed s = get token_id s.claimed_token_ids ≡ some expires_at

  same_ids :
      (s after : Inner T)
      → after.claimed_token_ids ≡ s.claimed_token_ids
      → IsClaimed s
      → IsClaimed after
  same_ids s after same claimed = rw same claimed

  again-IsClaimed :
      (id : Text) (expires : T) (s : Inner T)
      → IsClaimed s
      → IsClaimed (Credentials.claim_token_id id expires s).1
  unfolding Credentials.claim_token_id
  again-IsClaimed id expires s claimed = ground (
    arith,
    claimed,
    get-insert token_id id expires s.claimed_token_ids,
    text_ord.eq_of id token_id,
  )

  run-IsClaimed :
      (c : Call T) (s : Inner T)
      → IsBefore later expires_at c
      → IsClaimed s
      → IsClaimed (run later c s)
  unfolding run
  run-IsClaimed (Calls.create_user a) s b h =
      same_ids s (Users.create_user a s).1 (unfold Users.create_user in ground arith) h
  run-IsClaimed (Calls.delete_user a) s b h =
      same_ids s (Users.delete_user a s).1 (unfold Users.delete_user in ground arith) h
  run-IsClaimed (Calls.set_friendly_name a n) s b h =
      same_ids s (Users.set_friendly_name a n s).1 (unfold Users.set_friendly_name in ground arith)
        h
  run-IsClaimed (Calls.create_group a) s b h =
      same_ids s (Groups.create_group a s).1 (unfold Groups.create_group in ground arith) h
  run-IsClaimed (Calls.delete_group a) s b h =
      same_ids s (Groups.delete_group a s).1 (unfold Groups.delete_group in ground arith) h
  run-IsClaimed (Calls.add_membership a u) s b h =
      same_ids s (Groups.add_membership a u s).1 (unfold Groups.add_membership in ground arith) h
  run-IsClaimed (Calls.remove_membership a u) s b h =
      same_ids s (Groups.remove_membership a u s).1
        (unfold Groups.remove_membership in ground arith) h
  run-IsClaimed (Calls.create_policy a) s b h =
      same_ids s (Policies.create_policy a s).1 (unfold Policies.create_policy in ground arith) h
  run-IsClaimed (Calls.update_policy a) s b h =
      same_ids s (Policies.update_policy a s).1 (unfold Policies.update_policy in ground arith) h
  run-IsClaimed (Calls.delete_policy a) s b h =
      same_ids s (Policies.delete_policy a s).1 (unfold Policies.delete_policy in ground arith) h
  run-IsClaimed (Calls.attach_policy_to_user a p) s b h =
      same_ids s (Policies.attach_policy_to_user a p s).1
        (unfold Policies.attach_policy_to_user in ground arith) h
  run-IsClaimed (Calls.detach_policy_from_user a p) s b h =
      same_ids s (Policies.detach_policy_from_user a p s).1
        (unfold Policies.detach_policy_from_user in ground arith) h
  run-IsClaimed (Calls.attach_policy_to_group a p) s b h =
      same_ids s (Policies.attach_policy_to_group a p s).1
        (unfold Policies.attach_policy_to_group in ground arith) h
  run-IsClaimed (Calls.detach_policy_from_group a p) s b h =
      same_ids s (Policies.detach_policy_from_group a p s).1
        (unfold Policies.detach_policy_from_group in ground arith) h
  run-IsClaimed (Calls.create_credential a) s b h =
      same_ids s (Credentials.create_credential a s).1
        (unfold Credentials.create_credential in ground arith) h
  run-IsClaimed (Calls.delete_credential a k) s b h =
      same_ids s (Credentials.delete_credential a k s).1
        (unfold Credentials.delete_credential in ground arith) h
  run-IsClaimed (Calls.create_external_principal a p) s b h =
      same_ids s (Credentials.create_external_principal a p s).1
        (unfold Credentials.create_external_principal in ground arith) h
  run-IsClaimed (Calls.delete_external_principal a p) s b h =
      same_ids s (Credentials.delete_external_principal a p s).1
        (unfold Credentials.delete_external_principal in ground arith) h
  run-IsClaimed (Calls.claim_token_id a t) s b h = again-IsClaimed a t s h
  run-IsClaimed (Calls.delete_expired_token_ids now) s b h =
      unfold Credentials.delete_expired_token_ids in
      get-retain_kept (λ expires. later expires now) token_id expires_at s.claimed_token_ids h b

  run_all-IsClaimed :
      (cs : List (Call T)) (s : Inner T)
      → All (IsBefore later expires_at) cs
      → IsClaimed s
      → IsClaimed (run_all later cs s)
  unfolding run_all
  run_all-IsClaimed [] s before h = h
  run_all-IsClaimed (c ∷ cs) s (b, bs) h =
      run_all-IsClaimed cs (run later c s) bs (run-IsClaimed c s b h)

module _ {T : Type 0} (later : T → T → Bool) (from_second : ℤ → Option T) where
  made-IsClaimed :
      (body : ClaimTokenId) (expires_at : T) (s : Inner T)
      → (claim_token_id from_second body s).0 ≡ ok tt
      → from_unix from_second (codes "expires_at") body.expires_at ≡ ok expires_at
      → IsClaimed later body.token_id expires_at (claim_token_id from_second body s).1
  unfolding claim_token_id Credentials.claim_token_id
  made-IsClaimed body expires_at s h valid = ground (
    arith,
    h,
    valid,
    get-insert body.token_id body.token_id expires_at s.claimed_token_ids,
    text_ord.cmp_self body.token_id,
  )

  refused :
      (body : ClaimTokenId) (held expires_at : T) (s : Inner T)
      → is_empty body.token_id ≡ false
      → from_unix from_second (codes "expires_at") body.expires_at ≡ ok expires_at
      → IsClaimed later body.token_id held s
      → claim_token_id from_second body s
        ≡ (err (ApiError.invalid (codes "token id was already claimed")), s)
  unfolding claim_token_id Credentials.claim_token_id
  refused body held expires_at s named valid claimed = ground (arith, named, valid, claimed)

  named :
      (body : ClaimTokenId) (s : Inner T)
      → (claim_token_id from_second body s).0 ≡ ok tt
      → is_empty body.token_id ≡ false
  unfolding claim_token_id
  named body s h = ground (arith, h)

  pub claim_token_id-claim_token_id_refused :
      (first second : ClaimTokenId) (held expires_at : T) (cs : List (Call T)) (s : Inner T)
      → (claim_token_id from_second first s).0 ≡ ok tt
      → from_unix from_second (codes "expires_at") first.expires_at ≡ ok held
      → All (IsBefore later held) cs
      → second.token_id ≡ first.token_id
      → from_unix from_second (codes "expires_at") second.expires_at ≡ ok expires_at
      → let after = run_all later cs (claim_token_id from_second first s).1 in
        claim_token_id from_second second after
        ≡ (err (ApiError.invalid (codes "token id was already claimed")), after)
  claim_token_id-claim_token_id_refused first second held expires_at cs s h until before same
        valid =
      let start = (claim_token_id from_second first s).1 in
      let kept =
        run_all-IsClaimed later first.token_id held cs start before
          (made-IsClaimed first held s h until) in
      refused second held expires_at (run_all later cs start) (rw same (named first s h)) valid
        (rw same kept)
