-- ===== src/Tests/Browsing.antt =====
-- Redirects, refreshes and callbacks of a browser login, at concrete values.
use lakefs_auth.Common
use lakefs_auth.Common.{
  if◌then◌else◌, ◌+◌, ℕ, ◌≡◌, ◌⊎◌, refl, Bool, true, false, not, ◌&&◌, ◌||◌, Option, none, some,
  is_some, List, [], ◌∷◌, any, arith,
}
use lakefs_auth.Common.Int.{pos}
use lakefs_auth.Std.Order.{Text, text_ord, ◌==◌, cmp_text}
use lakefs_auth.Std.Str.{codes, is_control, split_at, ascii_lower, trim_end_matches}
use lakefs_auth.Std.Result.{Result, ok, err, is_ok}
use lakefs_auth.Core.Error.{unauthorized}
use lakefs_auth.Core.Model.{User}
use lakefs_auth.Authn.Claims.{Claims, ClaimsError, string, validate_claims}
use lakefs_auth.Authn.Session.{Cookie, base_cookie}
use lakefs_auth.Authn.Redirect.{Url, safe_next}
use lakefs_auth.Authn.Redirect.Targets.{IsLocal, IsListed, safe_next-ok}
use lakefs_auth.Authn.Oidc.{
  OidcSettings, OidcProvider, Round, KeyCheck, verified, unknown_key, verify_id_token, startup,
  initial_backoff,
}
use lakefs_auth.Authn.Oidc.Refresh.{fetched, IsSpaced, fetched-IsSpaced}
use lakefs_auth.Authn.Oidc.Verify.{IsChecked, verify_id_token-IsChecked}
use lakefs_auth.Authn.Oidc.Startup.{IsUp, startup-IsUp}
use lakefs_auth.Authn.Browser.{
  AppState, FlowState, CallbackQuery, LoginOutcome, CallbackFailure, state_matches, callback_inner,
}
use lakefs_auth.Authn.Browser.Callback.{
  IsLogin, consume-callback_inner, callback_inner-unmatched, callback_inner-IsLogin,
}
use lakefs_auth.Std.Utf8.{as_bytes}
use lakefs_auth.Std.BTreeMap.{get}

-- A parser that knows one URL.
abbrev example_url : Url
example_url = record {
  scheme = codes "https";
  host_str = some (codes "a.test");
  port = none;
  path = codes "/x";
  query = none;
}

abbrev parse : Text → Option Url
parse s = if s == codes "https://a.test/x" then some example_url else none

abbrev hosts : List Text
hosts = codes "https://a.test/" ∷ []

safe_next-ok_example :
    (codes "https://a.test/x" ≡ codes "https://a.test/x")
    × (any is_control (codes "https://a.test/x") ≡ false)
    × (IsLocal (codes "https://a.test/x") ⊎ IsListed parse hosts (codes "https://a.test/x"))
unfolding is_control cmp_text split_at ascii_lower trim_end_matches
safe_next-ok_example =
    safe_next-ok parse hosts (codes "https://a.test/x") (codes "https://a.test/x")
      (unfold safe_next in refl)

abbrev settings : OidcSettings
settings = record { min_refresh_interval = 60; failed_refresh_cooldown = 5 }

abbrev empty_provider : OidcProvider ℕ
empty_provider = record { current = none; last_key_refresh = none }

-- A discovery that fails, one within the cooldown, and one after it.
abbrev rounds : List (Round ℕ Text)
rounds =
    record { start = 1; finish = 2; answer = err (codes "down") }
    ∷ record { start = 4; finish = 4; answer = ok 8 }
    ∷ record { start = 9; finish = 10; answer = ok 9 }
    ∷ []

fetched-IsSpaced_example : IsSpaced settings none (fetched settings empty_provider rounds)
fetched-IsSpaced_example =
    fetched-IsSpaced settings empty_provider 0 rounds tt
      (omega arith, omega arith, (omega arith, omega arith, (omega arith, omega arith, tt)))

-- Keys 8 do not know the token, keys 9 do.
abbrev check : ℕ → Text → KeyCheck
check d raw = if Common.◌==◌ d 9 then verified else unknown_key (codes "no key")

abbrev no_claims : Text → Result Claims ClaimsError
no_claims raw = ok []

abbrev round : Round ℕ Text
round = record { start = 9; finish = 10; answer = ok 9 }

verify_id_token-IsChecked_example :
    (some (codes "t") ≡ some (codes "t"))
    × (no_claims (codes "t") ≡ ok [])
    × IsChecked check 8
        (verify_id_token check no_claims settings empty_provider round 8 (some (codes "t"))).1
        (codes "t")
verify_id_token-IsChecked_example =
    verify_id_token-IsChecked check no_claims settings empty_provider round 8 (some (codes "t")) []
      (codes "t") (unfold verify_id_token in refl)

abbrev answers : ℕ → Result ℕ Text
answers n = if Common.◌==◌ n 2 then ok 7 else err (codes "down")

startup-IsUp_example : IsUp answers 2 0 (startup 3 empty_provider initial_backoff answers 0)
startup-IsUp_example = startup-IsUp answers 2 empty_provider 7 refl

abbrev eve : User
eve = record {
  username = codes "eve";
  creation_date = pos 3;
  friendly_name = none;
  email = none;
  source = some (codes "oidc");
  encrypted_password = none;
  external_id = some (codes "x1");
}

abbrev cookie : Text → Cookie
cookie value = base_cookie (codes "internal_auth_session") value true

abbrev app : AppState ℕ ℕ ℕ
app = record {
  current = λ w. some 9;
  exchange_code = λ d code verifier w. (ok 5, w + 1);
  verify_id_token =
      λ d tokens nonce w. (ok ((codes "sub", string (codes "x1")) ∷ [], codes "t"), w);
  ensure_user = λ claims w. (ok (record { user = eve; created = false }), w);
  mint_login_token = λ username. ok (codes "jwt");
  session_login = λ token. ok (cookie token);
  session_text = λ e. codes "cookie";
  oidc_text = λ e. codes "oidc";
  provision_error = λ e. unauthorized (codes "no");
  to_json = λ v. codes "{}";
  debug = λ s. s;
  oidc_validate_claims = (codes "sub", codes "x1") ∷ [];
  resolve_next = λ next. codes "/";
  now = pos 100;
}

abbrev flow : FlowState
flow = record {
  state = codes "s1";
  nonce = codes "n1";
  pkce_verifier = codes "p1";
  next = none;
  issued_at = pos 50;
}

abbrev answer : Text → Option Text → CallbackQuery
answer state error = record {
  code = some (codes "c1");
  state = some state;
  error = error;
  error_description = none;
}

abbrev outcome : LoginOutcome
outcome = record {
  raw_id_token = codes "t";
  target = codes "/";
  session_cookie = cookie (codes "jwt");
}

callback_inner-IsLogin_example : IsLogin app (some flow) (answer (codes "s1") none) 0 outcome
unfolding cmp_text as_bytes validate_claims get
callback_inner-IsLogin_example =
    callback_inner-IsLogin app (some flow) (answer (codes "s1") none) 0 outcome
      (unfold callback_inner in refl)

callback_inner-unmatched_example :
    ((callback_inner app (some flow) (answer (codes "s2") none) 0).1 ≡ 0)
    × (is_ok (callback_inner app (some flow) (answer (codes "s2") none) 0).0 ≡ false)
    × ((failure : CallbackFailure)
        → (callback_inner app (some flow) (answer (codes "s2") none) 0).0 ≡ err failure
        → failure.consume_flow ≡ false)
unfolding cmp_text as_bytes
callback_inner-unmatched_example =
    callback_inner-unmatched app (some flow) (answer (codes "s2") none) 0
      (unfold state_matches in refl)

abbrev refused : CallbackFailure
refused = record { error = unauthorized (codes "login failed: denied"); consume_flow = true }

consume-callback_inner_example :
    true
    ≡ state_matches (some flow) (some (codes "s1"))
      && (is_some (some (codes "denied")) || is_some (app.current 0))
unfolding cmp_text as_bytes
consume-callback_inner_example =
    consume-callback_inner app (some flow) (answer (codes "s1") (some (codes "denied"))) 0 refused
      (unfold callback_inner in refl)
