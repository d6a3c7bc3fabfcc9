-- ===== src/Authn/Sts.antt =====
-- crates/lakefs-authn/src/routes/sts.rs: the code exchange that lakeFS forwards. The state `W` is what
-- the provider's metadata and the API server keep.
pub mod Checked
use lakefs_auth.Common.{Bool, not, ◌&&◌, Option, none, some, List, is_empty, if◌then◌else◌}
use lakefs_auth.Std.Order.{Text}
use lakefs_auth.Std.BTreeMap.{BTreeMap}
use lakefs_auth.Std.Str.{codes}
use lakefs_auth.Std.Result.{Result, ok, err, ok_or, map_err}
use lakefs_auth.Core.Error.{ApiError, invalid, unauthorized}
use lakefs_auth.Client.Ensure.{EnsuredUser}
use lakefs_auth.Authn.Claims.{Claims, Value, validate_claims, flatten_claims}
use lakefs_auth.Authn.Oidc.{OidcError, not_ready, into_api}
use lakefs_auth.Authn.Provision.{ProvisionError}
use lakefs_auth.Authn.Redirect.{Url, redirect_uri_allowed}
use lakefs_auth.Authn.Browser.{Act, lift, asked, ◌>>=◌, ◌>>◌}

pub record StsLoginRequest : Type 0 where
  pub code : Text
  pub state : Text
  pub redirect_uri : Text

-- What `AppState` offers to this handler; a token is checked without a nonce. `redirect_url` is
-- `RedirectUrl::new(text).ok()`.
pub record StsState (W D Tokens : Type 0) : Type 0 where
  pub current : W → Option D
  pub exchange_code : D → Text → Option Text → Text → W → Result Tokens OidcError × W
  pub verify_id_token : D → Tokens → W → Result (Claims × Text) OidcError × W
  pub ensure_user : Claims → W → Result EnsuredUser ProvisionError × W
  pub oidc_text : OidcError → Text
  pub provision_error : ProvisionError → ApiError
  pub to_json : Value → Text
  pub debug : Text → Text
  pub parse : Text → Option Url
  pub redirect_url : Text → Option Text
  pub sts_allowed_redirect_uris : List Text
  pub state_is_pkce_verifier : Bool
  pub oidc_validate_claims : BTreeMap Text Text

module _ {W D Tokens : Type 0} (app : StsState W D Tokens) where
  abbrev pub check_uri : Text → Result (Unit {0}) ApiError
  check_uri redirect_uri =
      if not (redirect_uri_allowed app.parse app.sts_allowed_redirect_uris redirect_uri)
      then err (invalid (codes "redirect_uri is not allowed"))
      else ok tt

  abbrev pub verifier_of : Text → Option Text
  verifier_of state =
      if app.state_is_pkce_verifier && not (is_empty state) then some state else none

  -- The checked claims: the configured checks, the user behind them, and the answer.
  unfoldable pub answer : Claims × Text → Act W (BTreeMap Text Text)
  unfolding validate_claims flatten_claims
  answer (claims, raw) = do
    lift (
        map_err
          (λ _.
            unauthorized (codes "the identity does not satisfy the configured claim requirements"))
          (validate_claims app.to_json app.debug claims app.oidc_validate_claims))
    provisioned ← asked app.provision_error (app.ensure_user claims)
    lift (ok (flatten_claims app.to_json claims))

  -- `POST /sts/login`
  unfoldable pub login : StsLoginRequest → Act W (BTreeMap Text Text)
  unfolding redirect_uri_allowed into_api answer
  login request w =
      (do
        discovered ← lift (ok_or (into_api app.oidc_text not_ready) (app.current w))
        lift (check_uri request.redirect_uri)
        redirect_uri ← lift (
            ok_or (invalid (codes "redirect_uri is not a valid URL"))
              (app.redirect_url request.redirect_uri))
        tokens ←
            asked (into_api app.oidc_text)
              (app.exchange_code discovered request.code (verifier_of request.state) redirect_uri)
        checked ← asked (into_api app.oidc_text) (app.verify_id_token discovered tokens)
        answer checked)
        w
