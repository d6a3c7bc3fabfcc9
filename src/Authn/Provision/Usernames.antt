-- ===== src/Authn/Provision/Usernames.antt =====
-- crates/lakefs-authn/src/provision.rs: the user name of a new user.
use lakefs_auth.Common.{
  ◌≡◌, refl, Bool, true, false, not, ◌&&◌, inl, inr, some, List, [], ◌∷◌, arith, Bool-cases,
  Option-cases, any, filter,
}
use lakefs_auth.Std.Order.{Text, text_ord, ◌==◌, ==_iff}
use lakefs_auth.Std.Sort.{has}
use lakefs_auth.Std.Str.{trim, is_whitespace, codes}
use lakefs_auth.Std.Result.{ok, Result-cases}
use lakefs_auth.Core.Validate.{validate_entity_id}
use lakefs_auth.Authn.Claims.{Claims, Value, claim_text, first_claim}
use lakefs_auth.Authn.Provision.{
  ProvisionSettings, validate_username, candidates, derive_username, email_is_unverified,
}

-- A user name that the API server accepts, without whitespace.
abbrev pub IsUsername : Text → Type 0
IsUsername username =
    (validate_entity_id "user" username ≡ ok tt) × (any is_whitespace username ≡ false)

validate_username-IsUsername :
    (username : Text) → validate_username username ≡ ok tt → IsUsername username
unfolding validate_username
validate_username-IsUsername username h = elim (Result-cases (validate_entity_id "user" username)) [
  | inl (u, e) ↦ elim (Bool-cases (any is_whitespace username)) [
    | inl blank ↦ ground (arith, e, blank, h)
    | inr fine ↦ (e, fine)
  ]
  | inr (reason, e) ↦ ground (arith, e, h)
]

has-filter :
    (p : Text → Bool) (xs : List Text) (x : Text)
    → has (filter p xs) x ≡ true
    → (has xs x ≡ true) × (p x ≡ true)
has-filter p [] x h = absurd (ground arith)
has-filter p (y ∷ xs) x h = elim (Bool-cases (p y)) [
  | inl kept ↦ elim (Bool-cases (y == x)) [
    | inl same ↦ (rw same refl, rw (← ((==_iff y x).0 same)) kept)
    | inr other ↦
        let (listed, holds) = has-filter p xs x (ground (arith, kept, other, h)) in
        (ground (arith, listed), holds)
  ]
  | inr dropped ↦
      let (listed, holds) = has-filter p xs x (ground (arith, dropped, h)) in
      (ground (arith, listed), holds)
]

module _ (to_json : Value → Text) where
  first_claim-some :
      (claims : Claims) (names : List Text) (name value : Text)
      → first_claim to_json claims names ≡ some (name, value)
      → (has names name ≡ true) × (claim_text to_json claims name ≡ some value)
  unfolding first_claim
  first_claim-some claims [] name value h = absurd (ground arith)
  first_claim-some claims (x ∷ names) name value h =
      elim (Option-cases (claim_text to_json claims x)) [
        | inl e ↦
            let (listed, found) = first_claim-some claims names name value (ground (arith, e, h)) in
            (ground (arith, listed), found)
        | inr (text, e) ↦
            let same : x ≡ name = ground (arith, e, h) in
            let read : text ≡ value = ground (arith, e, h) in
            let first : (x == name) ≡ true = (==_iff x name).1 same in
            (rw first refl, rw (← same, ← read) e)
      ]

  -- The name is what a claim that may name the user says: one that the settings list, and not an
  -- email that the provider marks unverified.
  pub record IsDerived (settings : ProvisionSettings) (claims : Claims) (username : Text)
      : Type 0 where
    claim : Text
    value : Text
    listed : has settings.username_claims claim ≡ true
    found : claim_text to_json claims claim ≡ some value
    trusted : (email_is_unverified to_json claims && (claim == codes "email")) ≡ false
    trimmed : trim value ≡ username

  IsDerived-some :
      (settings : ProvisionSettings) (claims : Claims) (username claim value : Text)
      → first_claim to_json claims (candidates to_json settings claims) ≡ some (claim, value)
      → trim value ≡ username
      → IsDerived settings claims username
  unfolding candidates
  IsDerived-some settings claims username claim value h trimmed =
      let (named, found) =
        first_claim-some claims (candidates to_json settings claims) claim value h in
      let (listed, trusted) =
        has-filter (λ name. not (email_is_unverified to_json claims && (name == codes "email")))
          settings.username_claims claim named in
      record {
        claim = claim;
        value = value;
        listed = listed;
        found = found;
        trusted = ground (arith, trusted);
        trimmed = trimmed;
      }

  -- A user name that was derived from claims is one that the API server accepts, without whitespace,
  -- and comes from a claim that the settings list, other than an unverified email.
  pub derive_username-IsUsername :
      (settings : ProvisionSettings) (claims : Claims) (username : Text)
      → derive_username to_json settings claims ≡ ok username
      → IsUsername username × IsDerived settings claims username
  unfolding derive_username
  derive_username-IsUsername settings claims username h =
      elim (Option-cases (first_claim to_json claims (candidates to_json settings claims))) [
        | inl e ↦ absurd (ground (arith, e, h))
        | inr ((claim, value), e) ↦ elim (Result-cases (validate_username (trim value))) [
          | inl (u, valid) ↦
              let trimmed : trim value ≡ username = ground (arith, e, valid, h) in
              (
                rw (← trimmed) (validate_username-IsUsername (trim value) valid),
                IsDerived-some settings claims username claim value e trimmed,
              )
          | inr (error, e2) ↦ absurd (ground (arith, e, e2, h))
        ]
      ]
