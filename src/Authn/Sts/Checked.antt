-- ===== src/Authn/Sts/Checked.antt =====
-- crates/lakefs-authn/src/routes/sts.rs: what an exchange that succeeds rests on.
use lakefs_auth.Common.{◌≡◌, refl, sym, ap, ◌∙◌, true, false, not, Bool, some, arith, if◌then◌else◌}
use lakefs_auth.Std.Order.{Text}
use lakefs_auth.Std.BTreeMap.{BTreeMap}
use lakefs_auth.Std.Str.{codes}
use lakefs_auth.Std.Result.{Result, ok, err, ok_or, ok_or-ok, map_err, map_err-ok}
use lakefs_auth.Core.Error.{ApiError, invalid, unauthorized}
use lakefs_auth.Client.Ensure.{EnsuredUser}
use lakefs_auth.Authn.Claims.{Claims, validate_claims, flatten_claims}
use lakefs_auth.Authn.Oidc.{OidcError, not_ready, into_api}
use lakefs_auth.Authn.Redirect.{redirect_uri_allowed}
use lakefs_auth.Authn.Browser.{Act, lift, asked, ◌>>=◌, ◌>>◌}
use lakefs_auth.Authn.Browser.Steps.{continue-ok, first_mapped-ok, first_mapped-state}
use lakefs_auth.Authn.Sts.{StsLoginRequest, StsState, check_uri, verifier_of, answer, login}

allowed-ok :
    (allowed : Bool) (e : ApiError) (u : Unit {0})
    → (if not allowed then err e else ok tt) ≡ ok u
    → allowed ≡ true
allowed-ok true e u h = refl
allowed-ok false e u h = absurd (ground arith)

module _ {W D Tokens : Type 0} (app : StsState W D Tokens) where
  -- What an exchange rests on: a URI on the list, a code exchanged for that URI, a token that was
  -- verified, the configured checks of its claims, and the user behind them.
  pub record IsStsLogin (request : StsLoginRequest) (w : W) (answered : BTreeMap Text Text)
      : Type 0 where
    discovered : D
    redirect_uri : Text
    tokens : Tokens
    claims : Claims
    raw : Text
    ensured : EnsuredUser
    later : W
    ready : app.current w ≡ some discovered
    allowed :
        redirect_uri_allowed app.parse app.sts_allowed_redirect_uris request.redirect_uri ≡ true
    usable : app.redirect_url request.redirect_uri ≡ some redirect_uri
    exchanged :
        (app.exchange_code discovered request.code (verifier_of app request.state) redirect_uri w).0
        ≡ ok tokens
    verified :
        (app.verify_id_token discovered tokens
          (app.exchange_code discovered request.code
            (verifier_of app request.state)
            redirect_uri
            w).1).0
        ≡ ok (claims, raw)
    satisfied : validate_claims app.to_json app.debug claims app.oidc_validate_claims ≡ ok tt
    provisioned : (app.ensure_user claims later).0 ≡ ok ensured
    flattened : flatten_claims app.to_json claims ≡ answered

  answer-ok :
      (claims : Claims) (raw : Text) (w : W) (answered : BTreeMap Text Text)
      → (answer app (claims, raw) w).0 ≡ ok answered
      → (validate_claims app.to_json app.debug claims app.oidc_validate_claims ≡ ok tt)
        × (ensured : EnsuredUser) × ((app.ensure_user claims w).0 ≡ ok ensured)
        × (flatten_claims app.to_json claims ≡ answered)
  unfolding answer
  answer-ok claims raw w answered h =
      let checks = validate_claims app.to_json app.debug claims app.oidc_validate_claims in
      let refusal : Text → ApiError = λ _.
        unauthorized (codes "the identity does not satisfy the configured claim requirements") in
      let last : EnsuredUser → Act W (BTreeMap Text Text) =
        λ _. lift (ok (flatten_claims app.to_json claims)) in
      let provision : Act W EnsuredUser = asked app.provision_error (app.ensure_user claims) in
      let (u, checked, h1) =
        continue-ok (λ _. provision >>= last) (map_err refusal checks, w) answered h in
      let (ensured, got, h2) = continue-ok last (provision w) answered h1 in
      (
        map_err-ok refusal checks u checked,
        ensured,
        first_mapped-ok app.provision_error (app.ensure_user claims w) ensured got,
        ground (arith, h2),
      )

  -- An exchange answers only with a discovered provider, a redirect URI on the configured list, a code
  -- exchanged for that URI, a token that was verified, claims that pass the configured checks and a user
  -- behind them, and what it answers is the flattened claims.
  pub login-IsStsLogin :
      (request : StsLoginRequest) (w : W) (answered : BTreeMap Text Text)
      → (login app request w).0 ≡ ok answered
      → IsStsLogin request w answered
  unfolding login
  login-IsStsLogin request w answered h =
      let into : OidcError → ApiError = into_api app.oidc_text in
      let verify : D → Tokens → Act W (Claims × Text) =
        λ discovered tokens. asked into (app.verify_id_token discovered tokens) in
      let exchange : D → Text → Act W Tokens = λ discovered uri.
        asked into
          (app.exchange_code discovered request.code (verifier_of app request.state) uri) in
      let after : D → Text → Act W (BTreeMap Text Text) = λ discovered uri.
        exchange discovered uri >>= (λ tokens. verify discovered tokens >>= answer app) in
      let url : Result Text ApiError =
        ok_or (invalid (codes "redirect_uri is not a valid URL"))
          (app.redirect_url request.redirect_uri) in
      let (discovered, found, h1) =
        continue-ok
          (λ discovered.
            lift (check_uri app request.redirect_uri) >> (lift url >>= after discovered))
          (ok_or (into not_ready) (app.current w), w) answered h in
      let (u, listed, h2) =
        continue-ok (λ _. lift url >>= after discovered) (check_uri app request.redirect_uri, w)
          answered h1 in
      let (uri, parsed, h3) = continue-ok (after discovered) (url, w) answered h2 in
      let (tokens, exchanged, h4) =
        continue-ok (λ tokens. verify discovered tokens >>= answer app) (exchange discovered uri w)
          answered h3 in
      let ((claims, raw), read, h5) =
        continue-ok (answer app) (verify discovered tokens (exchange discovered uri w).1) answered
          h4 in
      let (satisfied, ensured, provisioned, flattened) =
        answer-ok claims raw (verify discovered tokens (exchange discovered uri w).1).1 answered
          h5 in
      let reply = app.exchange_code discovered request.code (verifier_of app request.state) uri w in
      record {
        discovered = discovered;
        redirect_uri = uri;
        tokens = tokens;
        claims = claims;
        raw = raw;
        ensured = ensured;
        later = (verify discovered tokens (exchange discovered uri w).1).1;
        ready = ok_or-ok (into not_ready) (app.current w) discovered found;
        allowed =
            allowed-ok
              (redirect_uri_allowed app.parse app.sts_allowed_redirect_uris request.redirect_uri) _
              u listed;
        usable = ok_or-ok _ (app.redirect_url request.redirect_uri) uri parsed;
        exchanged = first_mapped-ok into reply tokens exchanged;
        verified =
            ap (λ v. (app.verify_id_token discovered tokens v).0)
              (sym (first_mapped-state into reply))
            ∙ first_mapped-ok into
                (app.verify_id_token discovered tokens (exchange discovered uri w).1) (claims, raw)
                read;
        satisfied = satisfied;
        provisioned = provisioned;
        flattened = flattened;
      }
