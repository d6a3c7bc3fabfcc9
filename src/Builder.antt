-- ===== src/Builder.antt =====
-- crates/lakefs-authz/src/policy_builder.rs: the requests of the policy builder page. A header is the
-- text that `to_str` answers, when there is one.
pub mod Guarded
use lakefs_auth.Common.{
  ℕ, Bool, true, false, not, ◌||◌, Option, none, some, List, ◌++◌, if◌then◌else◌,
}
use lakefs_auth.Std.Order.{Text}
use lakefs_auth.Std.Str.{codes, split_at, eq_ignore_ascii_case}
use lakefs_auth.Std.Result.{Result, ok, err, ◌>>=◌, ◌>>◌, ok_or, map_err}
use lakefs_auth.Core.Error.{ApiError, with_status, to_string}
use lakefs_auth.Core.Model.{Statement}
use lakefs_auth.Core.Validate.{validate_policy}
use lakefs_auth.Core.Pagination.{CursorError}
use lakefs_auth.Store.Types.{◌and_then◌}
use lakefs_auth.Authn.Session.{session_cookie}
use lakefs_auth.LakeFs.{Web, LakeFsClient, LakeFsError, Session, from_cookie_header}
use lakefs_auth.LakeFs

pub data BuilderError : Type 0 where
  no_lakefs no_session cross_origin : BuilderError
  lakefs : LakeFsError → BuilderError
  invalid : ApiError → BuilderError

pub record HeaderMap : Type 0 where
  pub cookie : Option Text
  pub sec_fetch_site : Option Text
  pub origin : Option Text
  pub host : Option Text

pub record BuilderState : Type 0 where
  pub lakefs : Option LakeFsClient

pub record Context : Type 0 where
  pub lakefs : Bool
  pub user : Option Text

pub record Names : Type 0 where
  pub users : List Text
  pub groups : List Text
  pub policies : List Text

pub record PolicyRequest : Type 0 where
  pub name : Text
  pub statement : List Statement

-- `origin.split_once("://").map_or(origin, |(_, rest)| rest)`
abbrev pub authority_of : Text → Option (Text × Text) → Text
authority_of origin none = origin
authority_of origin (some (scheme, rest)) = rest

abbrev pub unwrap_or_default : Option Text → Text
unwrap_or_default none = List.[]
unwrap_or_default (some t) = t

abbrev pub check_site : Text → Result (Unit {0}) BuilderError
check_site site =
    let own =
      eq_ignore_ascii_case site (codes "same-origin") || eq_ignore_ascii_case site (codes "none") in
    if own then ok tt else err cross_origin

unfoldable pub check_origin : Option Text → Option Text → Result (Unit {0}) BuilderError
unfolding split_at
check_origin none host = ok tt
check_origin (some origin) host =
    let authority = authority_of origin (split_at (codes "://") origin) in
    if not (eq_ignore_ascii_case authority (unwrap_or_default host))
    then err cross_origin
    else ok tt

-- `if let Some(site) = ...`
abbrev pub by_site : Option Text → Result (Unit {0}) BuilderError → Result (Unit {0}) BuilderError
by_site none other = other
by_site (some site) other = check_site site

unfoldable pub same_origin : HeaderMap → Result (Unit {0}) BuilderError
unfolding check_origin
same_origin headers = by_site headers.sec_fetch_site (check_origin headers.origin headers.host)

-- `from_str` is `HeaderValue::from_str(text).ok()`.
abbrev pub session_of : (Text → Option Text) → HeaderMap → Option Session
session_of from_str headers = headers.cookie and_then from_cookie_header from_str

unfoldable pub live :
    (Text → Option Text) → BuilderState → HeaderMap → Result (LakeFsClient × Session) BuilderError
unfolding from_cookie_header
live from_str state headers = do
  client ← ok_or no_lakefs state.lakefs
  session ← ok_or no_session (session_of from_str headers)
  ok (client, session)

-- What the printing of a status and of a cursor error answers.
pub record Display : Type 0 where
  pub status : ℕ → Text
  pub cursor : CursorError → Text

-- The texts of `LakeFsError` and of `BuilderError`.
unfoldable pub lakefs_text : Display → LakeFsError → Text
lakefs_text display (LakeFsError.build e) = codes "build lakeFS client: " ++ e
lakefs_text display (LakeFsError.transport e) = codes "call lakeFS: " ++ e
lakefs_text display (LakeFsError.forbidden path) = codes "the lakeFS session may not read " ++ path
lakefs_text display (LakeFsError.rejected status message) =
    codes "lakeFS rejected the request: " ++ message
lakefs_text display (LakeFsError.status status path) =
    codes "lakeFS returned " ++ (display.status status ++ (codes " for " ++ path))
lakefs_text display (LakeFsError.pagination path error) =
    codes "lakeFS pagination of " ++ (path ++ (codes " did not advance: " ++ display.cursor error))

unfoldable pub builder_text : Display → BuilderError → Text
unfolding lakefs_text to_string
builder_text display no_lakefs = codes "no lakeFS endpoint is configured"
builder_text display no_session =
    codes "sign in to lakeFS first: no " ++ (session_cookie ++ codes " cookie was sent")
builder_text display cross_origin = codes "the request comes from another origin"
builder_text display (lakefs e) = lakefs_text display e
builder_text display (invalid e) = to_string e

-- `impl From<BuilderError> for ApiError`, on the error and its text
abbrev pub of_lakefs : LakeFsError → Text → ApiError
of_lakefs (LakeFsError.forbidden path) message = ApiError.unauthorized message
of_lakefs (LakeFsError.rejected status reason) message = with_status status message
of_lakefs (LakeFsError.build e) message = with_status 502 message
of_lakefs (LakeFsError.transport e) message = with_status 502 message
of_lakefs (LakeFsError.status status path) message = with_status 502 message
of_lakefs (LakeFsError.pagination path error) message = with_status 502 message

unfoldable pub to_api_error : Display → BuilderError → ApiError
unfolding builder_text
to_api_error display no_lakefs = ApiError.not_found (builder_text display no_lakefs)
to_api_error display no_session = ApiError.unauthorized (builder_text display no_session)
to_api_error display cross_origin = ApiError.forbidden (builder_text display cross_origin)
to_api_error display (lakefs e) = of_lakefs e (builder_text display (lakefs e))
to_api_error display (invalid e) = e

module _ {W : Type 0} (web : Web W) (from_str : Text → Option Text) (state : BuilderState) where
  abbrev pub user_of : Result Text LakeFsError → Option Text
  user_of (ok user) = some user
  user_of (err e) = none

  abbrev pub context_of : LakeFsClient → Option Session → W → Context × W
  context_of client none w = (record { lakefs = true; user = none }, w)
  context_of client (some session) w =
      let (user, w') = LakeFs.current_user web client session w in
      (record { lakefs = true; user = user_of user }, w')

  abbrev pub context_with : Option LakeFsClient → HeaderMap → W → Context × W
  context_with none headers w = (record { lakefs = false; user = none }, w)
  context_with (some client) headers w = context_of client (session_of from_str headers) w

  unfoldable pub context : HeaderMap → W → Context × W
  unfolding from_cookie_header LakeFs.current_user
  context headers w = context_with state.lakefs headers w

  -- A route that asks lakeFS for a list: `none` says that the fuel of the listing ran out.
  abbrev pub Listing : Type 0 → Type 0
  Listing A = Option (Result A LakeFsError × W)

  abbrev pub listed : {A B : Type 0} → (A → B) → Listing A → Option (Result B BuilderError × W)
  listed f none = none
  listed f (some (ok a, w)) = some (ok (f a), w)
  listed f (some (err e, w)) = some (err (lakefs e), w)

  abbrev pub when_live :
      {A B : Type 0}
      → (A → B)
      → (LakeFsClient → Session → W → Listing A)
      → W
      → Result (LakeFsClient × Session) BuilderError
      → Option (Result B BuilderError × W)
  when_live f ask w (err e) = some (err e, w)
  when_live f ask w (ok (client, session)) = listed f (ask client session w)

  unfoldable pub names : HeaderMap → W → Option (Result Names BuilderError × W)
  unfolding live LakeFs.names
  names headers w =
      when_live
        (λ (users, groups, policies). record {
          users = users;
          groups = groups;
          policies = policies;
        })
        (LakeFs.names web) w (live from_str state headers)

  unfoldable pub repositories : HeaderMap → W → Option (Result (List Text) BuilderError × W)
  unfolding live LakeFs.repositories
  repositories headers w =
      when_live (λ found. found) (LakeFs.repositories web) w (live from_str state headers)

  unfoldable pub branches : Text → HeaderMap → W → Option (Result (List Text) BuilderError × W)
  unfolding live LakeFs.branches
  branches repository headers w =
      when_live (λ found. found) (λ client. LakeFs.branches web client repository) w
        (live from_str state headers)

  -- What runs before the call of lakeFS. `from_json` reads a list of resources.
  unfoldable pub admitted :
      (Text → Result (List Text) Text)
      → HeaderMap
      → PolicyRequest
      → Result (LakeFsClient × Session) BuilderError
  unfolding same_origin live validate_policy
  admitted from_json headers request = do
    same_origin headers
    found ← live from_str state headers
    map_err invalid (validate_policy from_json request.name request.statement)
    ok found

  abbrev pub created :
      PolicyRequest
      → W
      → Result (LakeFsClient × Session) BuilderError
      → Result Text BuilderError × W
  created request w (err e) = (err e, w)
  created request w (ok (client, session)) =
      let (name, w') = LakeFs.create_policy web client request.name request.statement session w in
      (map_err lakefs name, w')

  unfoldable pub create_policy :
      (Text → Result (List Text) Text)
      → HeaderMap
      → PolicyRequest
      → W
      → Result Text BuilderError × W
  unfolding admitted LakeFs.create_policy
  create_policy from_json headers request w = created request w (admitted from_json headers request)
