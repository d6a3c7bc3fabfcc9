-- ===== src/Tests/Exchanges.antt =====
-- A code exchange of lakeFS, at concrete values.
use lakefs_auth.Common.{◌+◌, ℕ, refl, none, some, [], ◌∷◌, Option, if◌then◌else◌, true}
use lakefs_auth.Common.Int.{pos}
use lakefs_auth.Std.Order.{Text, text_ord, ◌==◌, cmp_text}
use lakefs_auth.Std.Str.{codes, split_at, ascii_lower, trim_end_matches}
use lakefs_auth.Std.BTreeMap.{get, insert}
use lakefs_auth.Std.Result.{ok}
use lakefs_auth.Core.Error.{unauthorized}
use lakefs_auth.Core.Model.{User}
use lakefs_auth.Authn.Claims.{string, validate_claims, flatten_claims}
use lakefs_auth.Authn.Redirect.{Url, redirect_uri_allowed}
use lakefs_auth.Authn.Sts.{StsState, StsLoginRequest, answer, login}
use lakefs_auth.Authn.Sts.Checked.{IsStsLogin, login-IsStsLogin}

abbrev callback_url : Url
callback_url = record {
  scheme = codes "https";
  host_str = some (codes "a.test");
  port = none;
  path = codes "/x";
  query = none;
}

abbrev parse_url : Text → Option Url
parse_url s = if s == codes "https://a.test/x" then some callback_url else none

abbrev adam : User
adam = record {
  username = codes "adam";
  creation_date = pos 3;
  friendly_name = none;
  email = none;
  source = some (codes "oidc");
  encrypted_password = none;
  external_id = some (codes "x1");
}

abbrev exchanger : StsState ℕ ℕ ℕ
exchanger = record {
  current = λ w. some 9;
  exchange_code = λ d code verifier uri w. (ok 5, w + 1);
  verify_id_token = λ d tokens w. (ok ((codes "sub", string (codes "x1")) ∷ [], codes "t"), w);
  ensure_user = λ claims w. (ok (record { user = adam; created = true }), w);
  oidc_text = λ e. codes "oidc";
  provision_error = λ e. unauthorized (codes "no");
  to_json = λ v. codes "{}";
  debug = λ s. s;
  parse = parse_url;
  redirect_url = λ s. some s;
  sts_allowed_redirect_uris = codes "https://a.test/x" ∷ [];
  state_is_pkce_verifier = true;
  oidc_validate_claims = (codes "sub", codes "x1") ∷ [];
}

abbrev exchange_request : StsLoginRequest
exchange_request = record {
  code = codes "c1";
  state = codes "p1";
  redirect_uri = codes "https://a.test/x";
}

login-IsStsLogin_example : IsStsLogin exchanger exchange_request 0 ((codes "sub", codes "x1") ∷ [])
unfolding cmp_text validate_claims get insert flatten_claims split_at ascii_lower trim_end_matches
    redirect_uri_allowed answer
login-IsStsLogin_example =
    login-IsStsLogin exchanger exchange_request 0 ((codes "sub", codes "x1") ∷ [])
      (unfold login in refl)
