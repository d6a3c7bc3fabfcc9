-- ===== src/Authn/Provision/Requests.antt =====
-- crates/lakefs-authn/src/provision.rs: what a login asks the API server to create.
use lakefs_auth.Common.{
  ◌≡◌, refl, sym, Bool, true, false, ◌&&◌, inl, inr, Option, none, some, [], ◌∷◌, All, arith,
  Option-cases, if◌then◌else◌, is_some,
}
use lakefs_auth.Std.Order.{Text}
use lakefs_auth.Std.Str.{codes}
use lakefs_auth.Std.Result.{Result, ok, err, Result-cases}
use lakefs_auth.Core.Model.{User, UserCreation}
use lakefs_auth.Client.{ClientError}
use lakefs_auth.Client.Ensure.{
  Ask, EnsuredUser, find_user, create_user_with_groups, creation_of, update_friendly_name,
}
use lakefs_auth.Client.Ensure.Calls.{Log, Server, logged}
use lakefs_auth.Client.Ensure.Calls
use lakefs_auth.Client.Ensure.Creations.{
  creations, creations-find_user, creations-create_user_with_groups,
}
use lakefs_auth.Authn.Claims.{Claims, Value, claim_text}
use lakefs_auth.Authn.Provision.{
  ProvisionSettings, ProvisionError, ensure_user, after_lookup, provision, created, renamed,
  spec_of, derive_username, verified_email, email_is_unverified, unknown_identity,
}
use lakefs_auth.Authn.Provision.Usernames.{IsUsername, derive_username-IsUsername}

-- The rename of a known user, logged like the other requests.
abbrev pub renaming : Server → Text → Text → Ask Log (Unit {0})
renaming server username name log = (
  server.done (Calls.update_friendly_name username name ∷ log),
  Calls.update_friendly_name username name ∷ log,
)

module _ (to_json : Value → Text) (settings : ProvisionSettings) (claims : Claims) where
  -- A create that the settings allow, for the subject of the token, under a valid name, without an
  -- email that the provider marks unverified.
  pub record IsSound (creation : UserCreation) : Type 0 where
    allowed : settings.auto_provision ≡ true
    subject : creation.external_id ≡ claim_text to_json claims (codes "sub")
    named : IsUsername creation.username
    verified : (email_is_unverified to_json claims && is_some creation.email) ≡ false
    sourced : creation.source ≡ some settings.source

  email_verified :
      (email_is_unverified to_json claims && is_some (verified_email to_json claims)) ≡ false
  unfolding verified_email
  email_verified = ground arith

  and_false : (b : Bool) → (b && false) ≡ false
  and_false b = ground arith

  creation-IsSound :
      (subject username : Text) (email : Option Text)
      → settings.auto_provision ≡ true
      → claim_text to_json claims (codes "sub") ≡ some subject
      → IsUsername username
      → (email_is_unverified to_json claims && is_some email) ≡ false
      → IsSound (creation_of (spec_of to_json settings claims subject username) email)
  unfolding spec_of
  creation-IsSound subject username email allowed found valid verified = record {
    allowed = allowed;
    subject = sym found;
    named = valid;
    verified = verified;
    sourced = refl;
  }

  module _ (server : Server) where
    created_log :
        (r : Result EnsuredUser ClientError × Log)
        → (created to_json (logged server) (renaming server) r).1 ≡ r.1
    created_log (ok ensured, log) = refl
    created_log (err e, log) = refl

    creations-IsSound :
        (subject username : Text) (log : Log)
        → creations log ≡ []
        → settings.auto_provision ≡ true
        → claim_text to_json claims (codes "sub") ≡ some subject
        → IsUsername username
        → All IsSound (
            creations
              (create_user_with_groups
                (logged server)
                (spec_of to_json settings claims subject username)
                log).1)
    creations-IsSound subject username log fresh allowed found valid =
        let spec = spec_of to_json settings claims subject username in
        let with_email : IsSound (creation_of spec spec.email) =
          creation-IsSound subject username spec.email allowed found valid
            (unfold spec_of in email_verified) in
        let without_email : IsSound (creation_of spec none) =
          creation-IsSound subject username none allowed found valid (and_false _) in
        elim (creations-create_user_with_groups server spec log) [
          | inl once ↦ rw (once, fresh) (with_email, tt)
          | inr twice ↦ rw (twice, fresh) (without_email, (with_email, tt))
        ]

    creations-renamed :
        (user : User) (name : Option Text) (log : Log)
        → creations (renamed to_json (logged server) (renaming server) settings user name log)
          ≡ creations log
    unfolding update_friendly_name
    creations-renamed user none log = refl
    creations-renamed user (some name) log = ground arith

    guarded :
        (b : Bool) (x y : Result EnsuredUser ProvisionError × Log)
        → (b ≡ true → All IsSound (creations x.1))
        → All IsSound (creations y.1)
        → All IsSound (creations (if b then x else y).1)
    guarded true x y h k = h refl
    guarded false x y h k = k

    provided :
        (subject : Text) (log : Log)
        → creations log ≡ []
        → settings.auto_provision ≡ true
        → claim_text to_json claims (codes "sub") ≡ some subject
        → All IsSound (
            creations
              (provision to_json
                (logged server)
                (renaming server)
                settings
                claims
                subject
                (derive_username to_json settings claims)
                log).1)
    provided subject log fresh allowed found =
        elim (Result-cases (derive_username to_json settings claims)) [
          | inl (username, e) ↦
              rw
                (
                  e,
                  created_log (
                      create_user_with_groups (logged server)
                        (spec_of to_json settings claims subject username) log),
                )
                (creations-IsSound subject username log fresh allowed found
                  (derive_username-IsUsername to_json settings claims username e).0)
          | inr (error, e) ↦ rw (e, fresh) tt
        ]

    after_lookup-IsSound :
        (subject : Text) (r : Result (Option User) ClientError) (log : Log)
        → creations log ≡ []
        → claim_text to_json claims (codes "sub") ≡ some subject
        → All IsSound (
            creations
              (after_lookup to_json
                (logged server)
                (renaming server)
                settings
                claims
                subject
                (r, log)).1)
    after_lookup-IsSound subject (err e) log fresh found = rw fresh tt
    after_lookup-IsSound subject (ok (some user)) log fresh found =
        rw
          (
            creations-renamed user (claim_text to_json claims settings.friendly_name_claim) log,
            fresh,
          )
          tt
    after_lookup-IsSound subject (ok none) log fresh found =
        guarded settings.auto_provision
          (provision to_json (logged server) (renaming server) settings claims subject
            (derive_username to_json settings claims) log)
          (err unknown_identity, log) (λ allowed. provided subject log fresh allowed found)
          (rw fresh tt)

    -- Whatever the server answers, each user that a login asks it to create is one that the settings
    -- allow, for the subject of the token, under a name that the API accepts, from the configured
    -- source, and without an email that the provider marks unverified.
    pub ensure_user-IsSound :
        All IsSound
          (creations (ensure_user to_json (logged server) (renaming server) settings claims []).1)
    unfolding ensure_user
    ensure_user-IsSound = elim (Option-cases (claim_text to_json claims (codes "sub"))) [
      | inl e ↦ rw e tt
      | inr (subject, e) ↦ rw e (
          after_lookup-IsSound subject (find_user (logged server) "external_id" subject []).0
            (find_user (logged server) "external_id" subject []).1
            (creations-find_user server "external_id" subject []) e)
    ]
