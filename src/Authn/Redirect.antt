-- ===== src/Authn/Redirect.antt =====
-- crates/lakefs-authn/src/util/redirect.rs, and the redirect URIs of routes/sts.rs. `Url::parse`, `join`
-- and the text of a URL are parameters.
pub mod Targets
use lakefs_auth.Common.{
  ℕ, Bool, true, false, ◌&&◌, ◌||◌, Option, none, some, List, [], ◌∷◌, ◌++◌, any, is_empty, is_none,
  if◌then◌else◌,
}
use lakefs_auth.Common
use lakefs_auth.Common.Int.{pos}
use lakefs_auth.Std.Order.{Text, text_ord, ◌==◌}
use lakefs_auth.Std.Str.{
  codes, starts_with, is_control, to_ascii_lowercase, eq_ignore_ascii_case, trim_end_matches,
  decimal, split_at,
}
use lakefs_auth.Std.Result.{Result, ok, err, ok_or, ◌>>=◌, ◌>>◌}
use lakefs_auth.Store.Types.{eq_option}

pub data RedirectError : Type 0 where
  empty control_character protocol_relative not_a_url bad_scheme host_not_allowed : RedirectError

-- What the program reads of a `Url`. The port is `none` for the scheme's own.
pub record Url : Type 0 where
  pub scheme : Text
  pub host_str : Option Text
  pub port : Option ℕ
  pub path : Text
  pub query : Option Text

unfoldable pub is_protocol_relative : Text → Bool
unfolding starts_with
is_protocol_relative next =
    let lowered = to_ascii_lowercase next in
    starts_with next (codes "/\\")
    || any (λ prefix. starts_with lowered prefix) (codes "//" ∷ codes "/%2f" ∷ codes "/%5c" ∷ [])

abbrev pub is_http : Text → Bool
is_http scheme = scheme == codes "http" || scheme == codes "https"

unfoldable pub authority_of : Text → Option ℕ → Text
authority_of host none = host
authority_of host (some port) = host ++ (codes ":" ++ decimal (pos port))

-- One entry of the allow list.
abbrev pub entry_allows : Text → Text → Text → Option (Text × Text) → Bool
entry_allows scheme authority entry (some (entry_scheme, rest)) =
    eq_ignore_ascii_case entry_scheme scheme
    && eq_ignore_ascii_case (trim_end_matches (λ c. Common.◌==◌ c b'/') rest) authority
entry_allows scheme authority entry none = eq_ignore_ascii_case entry authority

unfoldable pub is_allowed : List Text → Text → Text → Bool
is_allowed allowed_hosts scheme authority =
    any (λ entry. entry_allows scheme authority entry (split_at (codes "://") entry)) allowed_hosts

abbrev pub check_host : List Text → Text → Url → Option Text → Result Text RedirectError
check_host allowed_hosts next url none = err host_not_allowed
check_host allowed_hosts next url (some host) =
    if is_allowed allowed_hosts url.scheme (authority_of host url.port)
    then ok next
    else err host_not_allowed

abbrev pub check_absolute : List Text → Text → Option Url → Result Text RedirectError
check_absolute allowed_hosts next none = err not_a_url
check_absolute allowed_hosts next (some url) =
    if is_http url.scheme then check_host allowed_hosts next url url.host_str else err bad_scheme

abbrev pub is_loopback : Option Text → Bool
is_loopback none = false
is_loopback (some host) =
    host == codes "127.0.0.1" || host == codes "localhost" || host == codes "[::1]"

abbrev pub both_match : Option Url → Option Url → Bool
both_match none candidate = false
both_match (some entry) none = false
both_match (some entry) (some candidate) =
    is_loopback entry.host_str
    && is_none entry.port
    && entry.scheme == candidate.scheme
    && eq_option entry.host_str candidate.host_str
    && entry.path == candidate.path
    && eq_option entry.query candidate.query

module _ (parse : Text → Option Url) where
  unfoldable pub safe_next : Text → List Text → Result Text RedirectError
  unfolding is_protocol_relative is_allowed authority_of
  safe_next next allowed_hosts =
      if is_empty next
      then err empty
      else if any is_control next
      then err control_character
      else if starts_with next (codes "/")
      then (if is_protocol_relative next then err protocol_relative else ok next)
      else check_absolute allowed_hosts next (parse next)

  unfoldable pub loopback_matches : Text → Text → Bool
  loopback_matches entry candidate = both_match (parse entry) (parse candidate)

  unfoldable pub redirect_uri_allowed : List Text → Text → Bool
  unfolding loopback_matches
  redirect_uri_allowed allowed candidate =
      any (λ entry. entry == candidate || loopback_matches entry candidate) allowed

  -- `join base next` is the text of the joined URL, where it joins.
  abbrev pub joined_or : Text → Option Text → Text
  joined_or next none = next
  joined_or next (some joined) = joined

  abbrev pub against : (Url → Text → Option Text) → Text → Option Url → Option Url → Text
  against join next (some absolute) base = next
  against join next none none = next
  against join next none (some base) = joined_or next (join base next)

  unfoldable pub resolve_next : (Url → Text → Option Text) → Text → Option Text → Text
  resolve_next join post_login_url none = post_login_url
  resolve_next join post_login_url (some next) =
      against join next (parse next) (parse post_login_url)
