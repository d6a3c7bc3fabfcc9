-- ===== src/Authn/Oidc/Verify.antt =====
-- crates/lakefs-authn/src/oidc/mod.rs: which keys a token is checked against.
use lakefs_auth.Common.{
  ℕ, ◌≡◌, refl, ◌⊎◌, Option, none, some, arith, Option-cases, Bool-cases, inl, inr,
}
use lakefs_auth.Std.Order.{Text}
use lakefs_auth.Std.Result.{Result, ok, err, Result-cases}
use lakefs_auth.Authn.Claims.{Claims, ClaimsError}
use lakefs_auth.Authn.Oidc.{
  OidcSettings, OidcProvider, OidcError, Round, KeyCheck, verified, unknown_key, rejected, is_held,
  held_answer, after_discovery, refresh_for_key_error, with_refreshed, check_again, check_signature,
  payload_after, verify_id_token,
}

check_again-ok : (k : KeyCheck) (u : Unit {0}) → check_again k ≡ ok u → k ≡ verified
check_again-ok verified u h = refl
check_again-ok (unknown_key reason) u h = absurd (ground arith)
check_again-ok (rejected reason) u h = absurd (ground arith)

module _ {D : Type 0} where
  held_answer-current :
      (provider : OidcProvider D) (d : D)
      → held_answer provider provider.last_key_refresh ≡ some d
      → provider.current ≡ some d
  held_answer-current provider d h = elim (Option-cases provider.last_key_refresh) [
    | inl e ↦ absurd (ground (arith, e, h))
    | inr (previous, e) ↦ ground (arith, e, h)
  ]

module _ {D F : Type 0} where
  after_discovery-current :
      (provider : OidcProvider D) (finish : ℕ) (answer : Result D F) (d : D)
      → (after_discovery provider finish answer).0 ≡ some d
      → (after_discovery provider finish answer).1.current ≡ some d
  after_discovery-current provider finish (ok discovered) d h = h
  after_discovery-current provider finish (err failure) d h = absurd (ground arith)

  -- What a refresh hands out is what the provider holds afterwards.
  refresh-current :
      (settings : OidcSettings) (provider : OidcProvider D) (round : Round D F) (d : D)
      → (refresh_for_key_error settings provider round).0.0 ≡ some d
      → (refresh_for_key_error settings provider round).0.1.current ≡ some d
  unfolding refresh_for_key_error
  refresh-current settings provider round d h =
      elim (Bool-cases (is_held settings provider.last_key_refresh round.start)) [
        | inl held ↦ rw held (held_answer-current provider d (rw held at h))
        | inr free ↦
            rw free (after_discovery-current provider round.finish round.answer d (rw free at h))
      ]

module _ {D : Type 0} (check : D → Text → KeyCheck) where
  -- The metadata under which the token was found fine: what the caller had, or what the provider
  -- holds afterwards.
  pub record IsChecked (discovered : D) (provider : OidcProvider D) (raw : Text) : Type 0 where
    metadata : D
    known : (metadata ≡ discovered) ⊎ (provider.current ≡ some metadata)
    fine : check metadata raw ≡ verified

  with_refreshed-ok :
      (raw reason : Text) (refreshed : Option D) (u : Unit {0})
      → with_refreshed check raw reason refreshed ≡ ok u
      → (d : D) × (refreshed ≡ some d) × (check d raw ≡ verified)
  with_refreshed-ok raw reason none u h = absurd (ground arith)
  with_refreshed-ok raw reason (some d) u h = (d, refl, check_again-ok (check d raw) u h)

module _ {D : Type 0} where
  payload_after-ok :
      (raw_payload : Text → Result Claims ClaimsError) (raw text : Text) (claims : Claims)
      (checked : Result (Unit {0}) OidcError × OidcProvider D)
      → (payload_after raw_payload raw checked).0 ≡ ok (claims, text)
      → (checked.0 ≡ ok tt)
        × ((payload_after raw_payload raw checked).1 ≡ checked.1)
        × (text ≡ raw)
        × (raw_payload raw ≡ ok claims)
  payload_after-ok raw_payload raw text claims (err e, provider) h = absurd (ground arith)
  payload_after-ok raw_payload raw text claims (ok u, provider) h =
      elim (Result-cases (raw_payload raw)) [
        | inl (c, e) ↦ (refl, refl, ground (arith, e, h), ground (arith, e, h))
        | inr (problem, e) ↦ absurd (ground (arith, e, h))
      ]

module _ {D F : Type 0} (check : D → Text → KeyCheck) where
  check_signature-IsChecked :
      (settings : OidcSettings) (provider : OidcProvider D) (round : Round D F) (discovered : D)
      (raw : Text) (k : KeyCheck) (u : Unit {0})
      → check discovered raw ≡ k
      → (check_signature check settings provider round raw k).0 ≡ ok u
      → IsChecked check discovered (check_signature check settings provider round raw k).1 raw
  check_signature-IsChecked settings provider round discovered raw verified u e h = record {
    metadata = discovered;
    known = inl refl;
    fine = e;
  }
  check_signature-IsChecked settings provider round discovered raw (rejected reason) u e h =
      absurd (ground arith)
  check_signature-IsChecked settings provider round discovered raw (unknown_key reason) u e h =
      let (d, got, fine) =
        with_refreshed-ok check raw reason (refresh_for_key_error settings provider round).0.0 u
          h in
      record {
        metadata = d;
        known = inr (refresh-current settings provider round d got);
        fine = fine;
      }

  -- Claims that are handed out are those of the token in the answer, and the token was found fine
  -- under the caller's metadata or under what the provider holds afterwards.
  pub verify_id_token-IsChecked :
      (raw_payload : Text → Result Claims ClaimsError) (settings : OidcSettings)
      (provider : OidcProvider D) (round : Round D F) (discovered : D) (id_token : Option Text)
      (claims : Claims) (raw : Text)
      → (verify_id_token check raw_payload settings provider round discovered id_token).0
        ≡ ok (claims, raw)
      → (id_token ≡ some raw)
        × (raw_payload raw ≡ ok claims)
        × IsChecked check discovered
            (verify_id_token check raw_payload settings provider round discovered id_token).1
            raw
  unfolding verify_id_token
  verify_id_token-IsChecked raw_payload settings provider round discovered none claims raw h =
      absurd (ground arith)
  verify_id_token-IsChecked raw_payload settings provider round discovered (some text) claims raw
        h =
      let checked = check_signature check settings provider round text (check discovered text) in
      let (fine, kept, same, read) = payload_after-ok raw_payload text raw claims checked h in
      rw (same, kept)
        (
          refl,
          read,
          check_signature-IsChecked settings provider round discovered text (check discovered text)
              tt refl fine,
        )
