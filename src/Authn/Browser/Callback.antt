-- ===== src/Authn/Browser/Callback.antt =====
-- crates/lakefs-authn/src/routes/browser.rs: when a callback logs in, and when it spends the flow cookie.
use lakefs_auth.Common.{
  ◌≡◌, sym, ap, ◌∙◌, true, false, ◌&&◌, ◌||◌, Option, none, some, is_some, inl, inr, arith,
  Bool-cases, Option-cases,
}
use lakefs_auth.Std.Order.{Text, text_ord, ◌==◌}
use lakefs_auth.Std.Utf8.{as_bytes}
use lakefs_auth.Std.Str.{codes}
use lakefs_auth.Std.Result.{Result, ok, err, map_err, is_ok, Result-cases, map_err-ok}
use lakefs_auth.Core.Error.{ApiError, forbidden}
use lakefs_auth.Client.Ensure.{EnsuredUser}
use lakefs_auth.Authn.Claims.{Claims, validate_claims}
use lakefs_auth.Authn.Oidc.{OidcError, into_api}
use lakefs_auth.Authn.Browser.{
  AppState, FlowState, CallbackQuery, LoginOutcome, CallbackFailure, Act, ◌>>=◌, lift, asked,
  code_of, flow_expired, state_matches, finish_login, redeem, admit, minted_login, sealed_login,
  fresh_flow, check_state, ready_flow, after_state, failing, callback_inner,
}
use lakefs_auth.Authn.Browser.Steps.{
  continue-ok, first_mapped-ok, first_mapped-state, fresh-ok, failing-ok,
}

module _ {W D Tokens : Type 0} (app : AppState W D Tokens) where
  failing-err :
      (r : Result LoginOutcome ApiError × W) (failure : CallbackFailure)
      → (failing app true r).0 ≡ err failure
      → failure.consume_flow ≡ true
  failing-err (ok outcome, w) failure h = absurd (ground arith)
  failing-err (err e, w) failure h = ground (arith, h)

  spent :
      (flow : Option FlowState) (received : Option Text) (ready : Option D) (code : Option Text)
      (w : W) (failure : CallbackFailure)
      → (after_state app code (ready_flow app (state_matches flow received) flow ready) w).0
        ≡ err failure
      → failure.consume_flow ≡ (state_matches flow received && is_some ready)
  unfolding state_matches
  spent flow received none code w failure h = ground (arith, h)
  spent none received (some discovered) code w failure h = ground (arith, h)
  spent (some given) none (some discovered) code w failure h = ground (arith, h)
  spent (some given) (some text) (some discovered) code w failure h =
      elim (Bool-cases (as_bytes text == as_bytes given.state)) [
        | inl same ↦ rw same (
            failing-err (finish_login app discovered given code w) failure
              (ground (arith, same, h)))
        | inr other ↦ ground (arith, other, h)
      ]

  -- A callback that fails spends the flow cookie exactly when it carries the state of that cookie and
  -- the provider refused the login or the server is ready.
  pub consume-callback_inner :
      (flow : Option FlowState) (query : CallbackQuery) (w : W) (failure : CallbackFailure)
      → (callback_inner app flow query w).0 ≡ err failure
      → failure.consume_flow
        ≡ state_matches flow query.state && (is_some query.error || is_some (app.current w))
  unfolding callback_inner check_state
  consume-callback_inner flow query w failure h = elim (Option-cases query.error) [
    | inl e ↦ ground (arith, e, spent flow query.state (app.current w) query.code w failure, h)
    | inr (error, e) ↦ ground (arith, e, h)
  ]

  -- A callback without the state of the flow cookie asks nothing of the provider or the API,
  -- does not log in, and fails without spending the cookie.
  pub callback_inner-unmatched :
      (flow : Option FlowState) (query : CallbackQuery) (w : W)
      → state_matches flow query.state ≡ false
      → ((callback_inner app flow query w).1 ≡ w)
        × (is_ok (callback_inner app flow query w).0 ≡ false)
        × ((failure : CallbackFailure)
            → (callback_inner app flow query w).0 ≡ err failure
            → failure.consume_flow ≡ false)
  unfolding callback_inner check_state
  callback_inner-unmatched flow query w other = (
    ground (arith, other),
    ground (arith, other),
    λ failure h. ground (arith, other, consume-callback_inner flow query w failure h),
  )

  -- What the cookie of a login holds, and where the browser goes.
  pub record IsSealed (flow : FlowState) (username : Text) (outcome : LoginOutcome) : Type 0 where
    token : Text
    minted : app.mint_login_token username ≡ ok token
    sealed : app.session_login token ≡ ok outcome.session_cookie
    target : outcome.target ≡ app.resolve_next flow.next

  minted_login-ok :
      (flow : FlowState) (raw username : Text) (outcome : LoginOutcome)
      → minted_login app flow raw (app.mint_login_token username) ≡ ok outcome
      → IsSealed flow username outcome × (outcome.raw_id_token ≡ raw)
  minted_login-ok flow raw username outcome h =
      elim (Result-cases (app.mint_login_token username)) [
        | inl (token, minted) ↦ elim (Result-cases (app.session_login token)) [
          | inl (cookie, sealed) ↦
              let same : sealed_login app flow raw (ok cookie) ≡ ok outcome =
                ground (arith, minted, sealed, h) in
              (
                record {
                  token = token;
                  minted = minted;
                  sealed = ground (arith, sealed, same);
                  target = ground (arith, same);
                },
                ground (arith, same),
              )
          | inr (e, failed) ↦ absurd (ground (arith, minted, failed, h))
        ]
        | inr (e, failed) ↦ absurd (ground (arith, failed, h))
      ]

  admit-ok :
      (flow : FlowState) (claims : Claims) (raw : Text) (w : W) (outcome : LoginOutcome)
      → (admit app flow (claims, raw) w).0 ≡ ok outcome
      → (validate_claims app.to_json app.debug claims app.oidc_validate_claims ≡ ok tt)
        × (ensured : EnsuredUser) × ((app.ensure_user claims w).0 ≡ ok ensured)
        × IsSealed flow ensured.user.username outcome
        × (outcome.raw_id_token ≡ raw)
  unfolding admit
  admit-ok flow claims raw w outcome h =
      let checks = validate_claims app.to_json app.debug claims app.oidc_validate_claims in
      let refusal : Text → ApiError =
        λ _. forbidden (codes "the identity does not satisfy the configured claim requirements") in
      let last : EnsuredUser → Act W LoginOutcome =
        λ ensured. lift (minted_login app flow raw (app.mint_login_token ensured.user.username)) in
      let provision : Act W EnsuredUser = asked app.provision_error (app.ensure_user claims) in
      let (u, checked, h1) =
        continue-ok (λ _. provision >>= last) (map_err refusal checks, w) outcome h in
      let (ensured, got, h2) = continue-ok last (provision w) outcome h1 in
      let (sealed, same) = minted_login-ok flow raw ensured.user.username outcome h2 in
      (
        map_err-ok refusal checks u checked,
        ensured,
        first_mapped-ok app.provision_error (app.ensure_user claims w) ensured got,
        sealed,
        same,
      )

  -- What a login rests on: the flow of the cookie, a code exchanged for a token that was verified
  -- against the flow's nonce, the configured checks of its claims, and the user behind them.
  pub record IsLogin (stored : Option FlowState) (query : CallbackQuery) (w : W)
      (outcome : LoginOutcome) : Type 0 where
    flow : FlowState
    discovered : D
    code : Text
    tokens : Tokens
    claims : Claims
    ensured : EnsuredUser
    later : W
    accepted : query.error ≡ none
    held : stored ≡ some flow
    matched : state_matches stored query.state ≡ true
    ready : app.current w ≡ some discovered
    fresh : flow_expired app.now flow.issued_at ≡ false
    given : code_of query.code ≡ ok code
    exchanged : (app.exchange_code discovered code (some flow.pkce_verifier) w).0 ≡ ok tokens
    verified :
        (app.verify_id_token discovered tokens flow.nonce
          (app.exchange_code discovered code (some flow.pkce_verifier) w).1).0
        ≡ ok (claims, outcome.raw_id_token)
    satisfied : validate_claims app.to_json app.debug claims app.oidc_validate_claims ≡ ok tt
    provisioned : (app.ensure_user claims later).0 ≡ ok ensured
    sealed : IsSealed flow ensured.user.username outcome

  finish_login-ok :
      (stored : Option FlowState) (query : CallbackQuery) (w : W) (outcome : LoginOutcome)
      (discovered : D) (flow : FlowState)
      → query.error ≡ none
      → stored ≡ some flow
      → state_matches stored query.state ≡ true
      → app.current w ≡ some discovered
      → (finish_login app discovered flow query.code w).0 ≡ ok outcome
      → IsLogin stored query w outcome
  unfolding finish_login redeem
  finish_login-ok stored query w outcome discovered flow accepted held matched ready h =
      let into : OidcError → ApiError = into_api app.oidc_text in
      let exchange : Text → Act W Tokens =
        λ code. asked into (app.exchange_code discovered code (some flow.pkce_verifier)) in
      let verify : Tokens → Act W (Claims × Text) =
        λ tokens. asked into (app.verify_id_token discovered tokens flow.nonce) in
      let (u, fresh, h1) =
        continue-ok (λ _. lift (code_of query.code) >>= redeem app discovered flow)
          (fresh_flow app flow, w) outcome h in
      let (code, given, h2) =
        continue-ok (redeem app discovered flow) (code_of query.code, w) outcome h1 in
      let (tokens, exchanged, h3) =
        continue-ok (λ tokens. verify tokens >>= admit app flow) (exchange code w) outcome h2 in
      let ((claims, raw), read, h4) =
        continue-ok (admit app flow) (verify tokens (exchange code w).1) outcome h3 in
      let (satisfied, ensured, provisioned, sealed, same) =
        admit-ok flow claims raw (verify tokens (exchange code w).1).1 outcome h4 in
      let answer = app.exchange_code discovered code (some flow.pkce_verifier) w in
      record {
        flow = flow;
        discovered = discovered;
        code = code;
        tokens = tokens;
        claims = claims;
        ensured = ensured;
        later = (verify tokens (exchange code w).1).1;
        accepted = accepted;
        held = held;
        matched = matched;
        ready = ready;
        fresh = fresh-ok (flow_expired app.now flow.issued_at) _ u fresh;
        given = given;
        exchanged = first_mapped-ok into answer tokens exchanged;
        verified =
            ap (λ v. (app.verify_id_token discovered tokens flow.nonce v).0)
              (sym (first_mapped-state into answer))
            ∙ first_mapped-ok into
                (app.verify_id_token discovered tokens flow.nonce (exchange code w).1) (claims, raw)
                read
            ∙ ap (λ t. ok (claims, t)) (sym same);
        satisfied = satisfied;
        provisioned = provisioned;
        sealed = sealed;
      }

  -- A callback logs in only with the state of the flow cookie, a flow that is not expired, a code
  -- exchanged for a token that was verified against the flow's nonce, claims that pass the configured
  -- checks, and the cookie of a token that was minted for the user behind them.
  pub callback_inner-IsLogin :
      (stored : Option FlowState) (query : CallbackQuery) (w : W) (outcome : LoginOutcome)
      → (callback_inner app stored query w).0 ≡ ok outcome
      → IsLogin stored query w outcome
  unfolding callback_inner check_state
  callback_inner-IsLogin stored query w outcome h = elim (Option-cases query.error) [
    | inr (error, e) ↦ absurd (ground (arith, e, h))
    | inl accepted ↦ elim (Option-cases (app.current w)) [
      | inl e ↦ absurd (ground (arith, accepted, e, h))
      | inr (discovered, ready) ↦ elim (Option-cases stored) [
        | inl e ↦ absurd (ground (arith, accepted, ready, e, h))
        | inr (flow, held) ↦ elim (Bool-cases (state_matches stored query.state)) [
          | inr other ↦ absurd (ground (arith, accepted, ready, held, other, h))
          | inl matched ↦
              finish_login-ok stored query w outcome discovered flow accepted held matched ready (
                failing-ok app true (finish_login app discovered flow query.code w) outcome
                  (ground (arith, accepted, ready, held, matched, h)))
        ]
      ]
    ]
  ]
