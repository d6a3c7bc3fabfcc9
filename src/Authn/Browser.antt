-- ===== src/Authn/Browser.antt =====
-- crates/lakefs-authn/src/routes/browser.rs: the callback of a browser login. The state `W` is what the
-- provider's metadata and the API server keep; a request changes it. The parser of the flow cookie
-- and the texts of errors are arguments.
pub mod Steps
pub mod Callback
pub mod Routes
use lakefs_auth.Common.{
  ℕ, Bool, true, false, not, ◌&&◌, Option, none, some, List, [], ◌∷◌, ◌++◌, is_empty, if◌then◌else◌,
  is_some,
}
use lakefs_auth.Common.Int.{ℤ, pos, ◌-ℤ◌, ◌≤?ℤ◌}
use lakefs_auth.Std.Order.{Text, text_ord, ◌==◌}
use lakefs_auth.Std.BTreeMap.{BTreeMap}
use lakefs_auth.Std.Str.{codes}
use lakefs_auth.Std.Utf8.{as_bytes}
use lakefs_auth.Std.Result.{Result, ok, err, ok_or, map_err}
use lakefs_auth.Core.Error.{ApiError, invalid, unauthorized, forbidden, internal}
use lakefs_auth.Client.Ensure.{EnsuredUser}
use lakefs_auth.Authn.Claims.{Claims, Value, validate_claims}
use lakefs_auth.Authn.Oidc.{OidcError, not_ready, into_api}
use lakefs_auth.Authn.Provision.{ProvisionError}
use lakefs_auth.Authn.Session.{Cookie, SessionError, flow_ttl}

-- What `AppState` offers to the handlers. `now` is the current time in seconds; `resolve_next` holds
-- the post-login URL.
pub record AppState (W D Tokens : Type 0) : Type 0 where
  pub current : W → Option D
  pub exchange_code : D → Text → Option Text → W → Result Tokens OidcError × W
  pub verify_id_token : D → Tokens → Text → W → Result (Claims × Text) OidcError × W
  pub ensure_user : Claims → W → Result EnsuredUser ProvisionError × W
  pub mint_login_token : Text → Result Text Text
  pub session_login : Text → Result Cookie SessionError
  pub session_text : SessionError → Text
  pub oidc_text : OidcError → Text
  pub provision_error : ProvisionError → ApiError
  pub to_json : Value → Text
  pub debug : Text → Text
  pub oidc_validate_claims : BTreeMap Text Text
  pub resolve_next : Option Text → Text
  pub now : ℤ

pub record FlowState : Type 0 where
  pub state : Text
  pub nonce : Text
  pub pkce_verifier : Text
  pub next : Option Text
  pub issued_at : ℤ

pub record CallbackQuery : Type 0 where
  pub code : Option Text
  pub state : Option Text
  pub error : Option Text
  pub error_description : Option Text

pub record LoginOutcome : Type 0 where
  pub raw_id_token : Text
  pub target : Text
  pub session_cookie : Cookie

pub record CallbackFailure : Type 0 where
  pub error : ApiError
  pub consume_flow : Bool

-- A handler's step: a result, and the state after it.
abbrev pub Act : Type 0 → Type 0 → Type 0
Act W A = W → Result A ApiError × W

infixl 5 ◌>>=◌ ◌>>◌
abbrev pub continue :
    {A B W : Type 0} → (A → Act W B) → Result A ApiError × W → Result B ApiError × W
continue f (err e, w) = (err e, w)
continue f (ok a, w) = f a w

abbrev pub ◌>>=◌ : {A B W : Type 0} → Act W A → (A → Act W B) → Act W B
◌>>=◌ m f w = continue f (m w)

abbrev pub ◌>>◌ : {A B W : Type 0} → Act W A → Act W B → Act W B
m >> n = m >>= λ _. n

abbrev pub lift : {A W : Type 0} → Result A ApiError → Act W A
lift r w = (r, w)

abbrev pub first_mapped : {A E W : Type 0} → (E → ApiError) → Result A E × W → Result A ApiError × W
first_mapped f (r, w) = (map_err f r, w)

-- A call with an error of its own, under `?`
abbrev pub asked : {A E W : Type 0} → (E → ApiError) → (W → Result A E × W) → Act W A
asked f m w = first_mapped f (m w)

-- `now - flow.issued_at > FLOW_TTL`
abbrev pub flow_expired : ℤ → ℤ → Bool
flow_expired now issued_at = not (now -ℤ issued_at ≤?ℤ pos flow_ttl)

abbrev pub code_of : Option Text → Result Text ApiError
code_of none = err (invalid (codes "the callback carries no authorization code"))
code_of (some code) =
    if is_empty code
    then err (invalid (codes "the callback carries no authorization code"))
    else ok code

unfoldable pub state_matches : Option FlowState → Option Text → Bool
state_matches none received = false
state_matches (some flow) none = false
state_matches (some flow) (some received) = as_bytes received == as_bytes flow.state

abbrev pub detail_of : Text → Option Text → Text
detail_of error none = error
detail_of error (some description) = description

module _ {W D Tokens : Type 0} (app : AppState W D Tokens) where
  -- The end of `finish_login`: the token of lakeFS, its cookie, and where the browser goes.
  abbrev pub sealed_login : FlowState → Text → Result Cookie ApiError → Result LoginOutcome ApiError
  sealed_login flow raw_id_token (err e) = err e
  sealed_login flow raw_id_token (ok session_cookie) = ok (record {
    raw_id_token = raw_id_token;
    target = app.resolve_next flow.next;
    session_cookie = session_cookie;
  })

  abbrev pub minted_login : FlowState → Text → Result Text Text → Result LoginOutcome ApiError
  minted_login flow raw_id_token (err e) = err (internal e)
  minted_login flow raw_id_token (ok token) =
      sealed_login flow raw_id_token
        (map_err (λ e. internal (app.session_text e)) (app.session_login token))

  -- The claims: the configured checks, and the user behind them.
  unfoldable pub admit : FlowState → Claims × Text → Act W LoginOutcome
  admit flow (claims, raw_id_token) = do
    lift (
        map_err
          (λ _. forbidden (codes "the identity does not satisfy the configured claim requirements"))
          (validate_claims app.to_json app.debug claims app.oidc_validate_claims))
    provisioned ← asked app.provision_error (app.ensure_user claims)
    lift (minted_login flow raw_id_token (app.mint_login_token provisioned.user.username))

  -- The code, and the token that it brings.
  unfoldable pub redeem : D → FlowState → Text → Act W LoginOutcome
  unfolding admit
  redeem discovered flow code = do
    tokens ←
        asked (into_api app.oidc_text) (app.exchange_code discovered code (some flow.pkce_verifier))
    checked ← asked (into_api app.oidc_text) (app.verify_id_token discovered tokens flow.nonce)
    admit flow checked

  abbrev pub fresh_flow : FlowState → Result (Unit {0}) ApiError
  fresh_flow flow =
      if flow_expired app.now flow.issued_at
      then err (invalid (codes "the login session expired, start again"))
      else ok tt

  unfoldable pub finish_login : D → FlowState → Option Text → Act W LoginOutcome
  unfolding redeem
  finish_login discovered flow given = do
    lift (fresh_flow flow)
    code ← lift (code_of given)
    redeem discovered flow code

  abbrev pub matched_flow : Bool → D → Option FlowState → Result (D × FlowState) ApiError
  matched_flow matches discovered none =
      err (invalid (codes "the login session is missing or expired, start again"))
  matched_flow matches discovered (some flow) =
      if matches
      then ok (discovered, flow)
      else err (invalid (codes "the login state does not match, start again"))

  abbrev pub ready_flow : Bool → Option FlowState → Option D → Result (D × FlowState) ApiError
  ready_flow matches flow none = err (into_api app.oidc_text not_ready)
  ready_flow matches flow (some discovered) = matched_flow matches discovered flow

  unfoldable pub check_state : Option FlowState → Bool → W → Result (D × FlowState) ApiError
  check_state flow matches w = ready_flow matches flow (app.current w)

  abbrev pub failing :
      Bool → Result LoginOutcome ApiError × W → Result LoginOutcome CallbackFailure × W
  failing consume (ok outcome, w) = (ok outcome, w)
  failing consume (err e, w) = (err (record { error = e; consume_flow = consume }), w)

  abbrev pub after_state :
      Option Text → Result (D × FlowState) ApiError → W → Result LoginOutcome CallbackFailure × W
  after_state code (err e) w = (err (record { error = e; consume_flow = false }), w)
  after_state code (ok (discovered, flow)) w = failing true (finish_login discovered flow code w)

  abbrev pub answered :
      Option FlowState
      → Bool
      → CallbackQuery
      → Option Text
      → W
      → Result LoginOutcome CallbackFailure × W
  answered flow matches query (some error) w = (
    err (record {
      error = unauthorized (codes "login failed: " ++ detail_of error query.error_description);
      consume_flow = matches;
    }),
    w,
  )
  answered flow matches query none w = after_state query.code (check_state flow matches w) w

  -- `flow` is what the stored cookie holds, where it can be read.
  unfoldable pub callback_inner :
      Option FlowState → CallbackQuery → W → Result LoginOutcome CallbackFailure × W
  unfolding finish_login check_state state_matches
  callback_inner flow query w = answered flow (state_matches flow query.state) query query.error w
