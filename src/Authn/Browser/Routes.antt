-- ===== src/Authn/Browser/Routes.antt =====
-- crates/lakefs-authn/src/routes/browser.rs and routes/mod.rs: the handlers of a browser login. What the
-- cookie jar is told is a list of changes; the writers of headers, of JSON and of provider URLs are
-- parameters.
use lakefs_auth.Common.{
  Bool, true, Option, none, some, List, [], ◌∷◌, ◌++◌, is_empty, if◌then◌else◌,
}
use lakefs_auth.Std.Order.{Text}
use lakefs_auth.Std.Result.{Result, ok, err, ◌>>=◌, ok_or, map_err}
use lakefs_auth.Core.Error.{ApiError, invalid, internal}
use lakefs_auth.Authn.Oidc.{not_ready, into_api}
use lakefs_auth.Authn.Redirect.{Url, RedirectError, safe_next}
use lakefs_auth.Authn.Session.{
  Cookie, SessionCookies, flow_cookie, id_token_cookie, flow, id_token, removal, clear,
}
use lakefs_auth.Authn.Browser.{
  AppState, FlowState, CallbackQuery, LoginOutcome, CallbackFailure, callback_inner,
}

pub data Change : Type 0 where
  add remove : Cookie → Change

-- A `302`, with the cookie that is set outside the jar; an error of the API; or a bare `500`.
pub data Reply : Type 0 where
  found : Text → List Text → Reply
  failed : ApiError → Reply
  server_error : Reply

pub record Response : Type 0 where
  pub jar : List Change
  pub reply : Reply

-- What `authorize_url` answers.
pub record AuthorizeRequest : Type 0 where
  pub state : Text
  pub nonce : Text
  pub pkce_verifier : Text
  pub url : Text

-- `header` is `HeaderValue::from_str(text).ok()`, and `header_error` the text of its error;
-- `http_get_url` renders a logout request with its client, hint and redirect.
pub record Pages (W D : Type 0) : Type 0 where
  pub header : Text → Option Text
  pub header_error : Text
  pub cookie_text : Cookie → Text
  pub write_flow : FlowState → Result Text Text
  pub authorize_url : D → AuthorizeRequest
  pub redirect_text : RedirectError → Text
  pub parse : Text → Option Url
  pub absolute : Text → Option Text
  pub join_public : Text → Option Text
  pub end_session_endpoint : D → Option Text
  pub parse_id_token : Text → Option Text
  pub http_get_url : Text → Text → Option Text → Option Text → Text
  pub session : SessionCookies
  pub allowed_redirect_hosts : List Text
  pub rp_initiated_logout : Bool
  pub oidc_client_id : Text
  pub post_logout_redirect_url : Text

abbrev pub located : Option Text → Reply
located none = server_error
located (some location) = found location []

-- `headers_mut().append(SET_COOKIE, value)`; only a redirect carries headers here.
abbrev pub append : Text → Reply → Reply
append value (found location cookies) = found location (cookies ++ (value ∷ []))
append value (failed e) = failed e
append value server_error = server_error

abbrev pub with_header : Text → Reply → Option Text → Reply
with_header error reply none = failed (internal error)
with_header error reply (some value) = append value reply

abbrev pub unless_empty : Option Text → Option Text
unless_empty none = none
unless_empty (some value) = if is_empty value then none else some value

-- `?` in a handler that answers a response
abbrev pub or_failed : {A : Type 0} → (A → Response) → Result A ApiError → Response
or_failed respond (err e) = record { jar = []; reply = failed e }
or_failed respond (ok a) = respond a

abbrev pub cookies_of : Bool → Option Cookie → List Change
cookies_of true (some cookie) = Change.add cookie ∷ []
cookies_of _ _ = []

-- `set_id_token_hint`, when there is a token that can be read
abbrev pub hint_of : (Text → Option Text) → Option Text → Option Text
hint_of parse none = none
hint_of parse (some raw) = parse raw

abbrev pub or_joined : Option Text → Option Text → Option Text
or_joined (some url) joined = some url
or_joined none joined = joined

module _ {W D Tokens : Type 0} (app : AppState W D Tokens) (pages : Pages W D) where
  unfoldable pub redirect_found : Text → Reply
  redirect_found target = located (pages.header target)

  unfoldable pub with_session_cookie : Reply → Cookie → Reply
  with_session_cookie reply cookie =
      with_header pages.header_error reply (pages.header (pages.cookie_text cookie))

  abbrev pub next_or_invalid : Result Text RedirectError → Result (Option Text) ApiError
  next_or_invalid (ok next) = ok (some next)
  next_or_invalid (err e) = err (invalid (pages.redirect_text e))

  abbrev pub checked_next : Option Text → Result (Option Text) ApiError
  checked_next none = ok none
  checked_next (some value) =
      next_or_invalid (safe_next pages.parse value pages.allowed_redirect_hosts)

  abbrev pub flow_of : Option Text → AuthorizeRequest → FlowState
  flow_of next request = record {
    state = request.state;
    nonce = request.nonce;
    pkce_verifier = request.pkce_verifier;
    next = next;
    issued_at = app.now;
  }

  -- `GET /oidc/login?next=`
  unfoldable pub login : Option Text → W → Response
  unfolding safe_next into_api redirect_found flow
  login next w =
      or_failed (λ response. response)
        (do
          discovered ← ok_or (into_api app.oidc_text not_ready) (app.current w)
          checked ← checked_next (unless_empty next)
          payload ←
              map_err internal (pages.write_flow (flow_of checked (pages.authorize_url discovered)))
          ok (record {
            jar = Change.add (flow pages.session payload) ∷ [];
            reply = redirect_found (pages.authorize_url discovered).url;
          }))

  -- What the outcome of `callback_inner` makes of the response.
  abbrev pub respond : Result LoginOutcome CallbackFailure → Response
  respond (ok login) = record {
    jar =
        Change.remove (removal pages.session flow_cookie)
        ∷ cookies_of pages.rp_initiated_logout (id_token pages.session login.raw_id_token);
    reply = with_session_cookie (redirect_found login.target) login.session_cookie;
  }
  respond (err failure) = record {
    jar =
        if failure.consume_flow then Change.remove (removal pages.session flow_cookie) ∷ [] else [];
    reply = failed failure.error;
  }

  -- `GET /oidc/callback`, on what the stored flow cookie holds
  unfoldable pub callback : Option FlowState → CallbackQuery → W → Response × W
  unfolding callback_inner removal id_token with_session_cookie redirect_found
  callback stored query w =
      let (outcome, w') = callback_inner app stored query w in (respond outcome, w')

  unfoldable pub post_logout_redirect : Option Text
  post_logout_redirect =
      or_joined (pages.absolute pages.post_logout_redirect_url)
        (pages.join_public pages.post_logout_redirect_url)

  abbrev pub end_session : Option Text → Option Text → Text
  end_session id_token none = pages.post_logout_redirect_url
  end_session id_token (some endpoint) =
      pages.http_get_url endpoint pages.oidc_client_id (hint_of pages.parse_id_token id_token)
        post_logout_redirect

  abbrev pub endpoint_of : Option D → Option Text
  endpoint_of none = none
  endpoint_of (some discovered) = pages.end_session_endpoint discovered

  unfoldable pub logout_target : Option Text → W → Text
  unfolding post_logout_redirect
  logout_target id_token w =
      if pages.rp_initiated_logout
      then end_session id_token (endpoint_of (app.current w))
      else pages.post_logout_redirect_url

  -- `GET /oidc/logout`, on what the stored ID token cookie holds
  unfoldable pub logout : Option Text → W → Response
  unfolding removal clear with_session_cookie redirect_found logout_target
  logout id_token w = record {
    jar =
        Change.remove (removal pages.session flow_cookie)
        ∷ Change.remove (removal pages.session id_token_cookie)
        ∷ [];
    reply = with_session_cookie (redirect_found (logout_target id_token w)) (clear pages.session);
  }
