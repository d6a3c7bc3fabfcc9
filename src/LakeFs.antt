-- ===== src/LakeFs.antt =====
-- crates/lakefs-authz/src/lakefs.rs: the lakeFS client of the policy builder. `W` is the state of the
-- lakeFS server; how it answers a request, and the readers of its bodies, are parameters.
pub mod Ends
use lakefs_auth.Common.{
  ℕ, zero, suc, Bool, true, false, ◌||◌, Option, none, some, List, [], ◌∷◌, ◌++◌, if◌then◌else◌,
}
use lakefs_auth.Common
use lakefs_auth.Common.Int.{pos}
use lakefs_auth.Std.Order.{Text, text_ord, ◌==◌}
use lakefs_auth.Std.Str.{codes, decimal, split, split_once, trim, trim_end_matches}
use lakefs_auth.Std.Result.{Result, ok, err, ok_or, map_err}
use lakefs_auth.Core.Model.{Statement}
use lakefs_auth.Core.Text.{path_segment}
use lakefs_auth.Core.Pagination.{CursorError, CursorWalk, ListResponse, new_walk, advance}
use lakefs_auth.Core.Pagination
use lakefs_auth.Store.Types.{◌and_then◌}
use lakefs_auth.Authn.Session.{session_cookie}

abbrev pub page_amount : ℕ
page_amount = 1000

abbrev pub max_pages : ℕ
max_pages = 20

pub data LakeFsError : Type 0 where
  build transport : Text → LakeFsError
  forbidden : Text → LakeFsError
  rejected : ℕ → Text → LakeFsError
  status : ℕ → Text → LakeFsError
  pagination : Text → CursorError → LakeFsError

-- The `Cookie` header to send on.
pub record Session : Type 0 where
  pub header : Text

-- `(name.trim() == SESSION_COOKIE).then(|| value.trim())`
abbrev pub session_in : Option (Text × Text) → Option Text
session_in none = none
session_in (some (name, value)) = if trim name == session_cookie then some (trim value) else none

-- `iter().find_map(f)`
abbrev pub find_map : {A B : Type 0} → (A → Option B) → List A → Option B
find_map f [] = none
find_map f (x ∷ xs) = elim (f x) [ some b ↦ some b | none ↦ find_map f xs ]

-- `from_str` is `HeaderValue::from_str(text).ok()`.
unfoldable pub from_cookie_header : (Text → Option Text) → Text → Option Session
unfolding split split_once trim
from_cookie_header from_str header =
    find_map (λ pair. session_in (split_once b'=' pair)) (split b';' header) and_then λ value.
    from_str (session_cookie ++ (b'=' ∷ value)) and_then λ text. some (record { header = text })

pub data Method : Type 0 where
  get post : Method

-- The body of a create is the name and the statements.
pub record Request : Type 0 where
  pub method : Method
  pub url : Text
  pub cookie : Text
  pub body : Option (Text × List Statement)

pub record Response : Type 0 where
  pub status : ℕ
  pub body : Text

-- What the HTTP library and the JSON library do for the client: `read_id` reads the body of one
-- `Named`, `read_user` the id in a `CurrentUser`, `read_names` a list of `Named`, `read_message` the message of an `ErrorBody`.
pub record Web (W : Type 0) : Type 0 where
  pub send : Request → W → Result Response Text × W
  pub read_id : Text → Result Text Text
  pub read_user : Text → Result Text Text
  pub read_names : Text → Result (ListResponse Text) Text
  pub read_message : Text → Option Text
  pub status_text : ℕ → Text
  pub utf8_percent_encode : (ℕ → Bool) → Text → Text

pub record LakeFsClient : Type 0 where
  pub endpoint : Text

-- `LakeFsClient::new`, when the HTTP client is built
abbrev pub new_client : Text → LakeFsClient
new_client endpoint = record { endpoint = trim_end_matches (λ c. Common.◌==◌ c b'/') endpoint }

-- `path.split('?').next().unwrap_or(path)`
abbrev pub first_or : Text → List Text → Text
first_or path [] = path
first_or path (part ∷ parts) = part

-- What follows the answer of a `GET`.
unfoldable pub read_answer :
    {A : Type 0} → (Text → Result A Text) → Text → Result Response Text → Result A LakeFsError
unfolding split
read_answer read path (err e) = err (transport e)
read_answer read path (ok response) =
    let route = first_or path (split b'?' path) in
    if Common.◌==◌ response.status 200
    then map_err transport (read response.body)
    else if Common.◌==◌ response.status 401 || Common.◌==◌ response.status 403
    then err (forbidden route)
    else err (status response.status route)

-- What follows the answer of the create.
unfoldable pub created_name :
    (Text → Result Text Text)
    → (Text → Option Text)
    → (ℕ → Text)
    → Result Response Text
    → Result Text LakeFsError
created_name read_id read_message status_text (err e) = err (transport e)
created_name read_id read_message status_text (ok response) =
    if Common.◌==◌ response.status 201
    then map_err transport (read_id response.body)
    else err (
        rejected response.status (elim (read_message response.body) [
          | some message ↦ message
          | none ↦ codes "lakeFS answered " ++ status_text response.status
        ]))

module _ {W : Type 0} (web : Web W) (client : LakeFsClient) where
  unfoldable pub get_path :
      {A : Type 0} → (Text → Result A Text) → Text → Session → W → Result A LakeFsError × W
  unfolding read_answer
  get_path read path session w =
      let request : Request = record {
        method = Method.get;
        url = client.endpoint ++ path;
        cookie = session.header;
        body = none;
      } in
      let (answer, w') = web.send request w in (read_answer read path answer, w')

  unfoldable pub current_user : Session → W → Result Text LakeFsError × W
  unfolding get_path
  current_user session w = get_path web.read_user (codes "/user") session w

  abbrev pub segment : Text → Text
  segment value = path_segment web.utf8_percent_encode value

  -- One page: the path with its query.
  abbrev pub page_path : Text → Text → Text
  page_path path after =
      path
      ++ (codes "?amount=" ++ (decimal (pos page_amount) ++ (codes "&after=" ++ segment after)))

  -- What follows the step of the walk: `none` says that the fuel ran out.
  abbrev pub Listed : Type 0
  Listed = Option (Result (List Text) LakeFsError × W)

  unfoldable pub after_step :
      (CursorWalk → List Text → W → Listed)
      → Text
      → List Text
      → W
      → Result Bool CursorError × CursorWalk
      → Listed
  after_step again path names w (ok true, walk) = again walk names w
  after_step again path names w (ok false, walk) = some (ok names, w)
  after_step again path names w (err (CursorError.too_many_pages n), walk) = some (ok names, w)
  after_step again path names w (err (CursorError.repeated cursor), walk) =
      some (err (pagination path (CursorError.repeated cursor)), w)

  unfoldable pub after_page :
      (CursorWalk → List Text → W → Listed)
      → Text
      → CursorWalk
      → List Text
      → Result (ListResponse Text) LakeFsError × W
      → Listed
  unfolding after_step advance
  after_page again path walk names (err e, w) = some (err e, w)
  after_page again path walk names (ok page, w) =
      after_step again path (names ++ page.results) w (advance walk page.pagination.next_offset)

  unfoldable pub list_loop : ℕ → Text → Session → CursorWalk → List Text → W → Listed
  unfolding after_page get_path
  list_loop zero path session walk names w = none
  list_loop (suc fuel) path session walk names w =
      after_page (λ walk names w. list_loop fuel path session walk names w) path walk names
        (get_path web.read_names (page_path path walk.after) session w)

  unfoldable pub list_names : Text → Session → W → Listed
  unfolding list_loop new_walk
  list_names path session w = list_loop max_pages path session (new_walk max_pages) [] w

  -- `list_names_or_empty`, on what the listing answers
  abbrev pub or_empty : Listed → Listed
  or_empty (some (err (forbidden path), w)) = some (ok [], w)
  or_empty other = other

  -- `?` on a listing
  abbrev pub and_list :
      {A : Type 0}
      → Listed
      → (List Text → W → Option (Result A LakeFsError × W))
      → Option (Result A LakeFsError × W)
  and_list none next = none
  and_list (some (err e, w)) next = some (err e, w)
  and_list (some (ok found, w)) next = next found w

  -- `tokio::try_join!` runs the three listings together; this is one order of their requests.
  unfoldable pub names :
      Session → W → Option (Result (List Text × List Text × List Text) LakeFsError × W)
  unfolding list_names
  names session w = and_list (or_empty (list_names (codes "/auth/users") session w)) λ users w1.
      and_list (or_empty (list_names (codes "/auth/groups") session w1)) λ groups w2.
        and_list (or_empty (list_names (codes "/auth/policies") session w2))
          λ policies w3. some (ok (users, groups, policies), w3)

  unfoldable pub repositories : Session → W → Listed
  unfolding list_names
  repositories session w = list_names (codes "/repositories") session w

  unfoldable pub branches : Text → Session → W → Listed
  unfolding list_names
  branches repository session w =
      list_names (codes "/repositories/" ++ (segment repository ++ codes "/branches")) session w

  unfoldable pub create_policy : Text → List Statement → Session → W → Result Text LakeFsError × W
  unfolding created_name
  create_policy name statement session w =
      let request : Request = record {
        method = Method.post;
        url = client.endpoint ++ codes "/auth/policies";
        cookie = session.header;
        body = some (name, statement);
      } in
      let (answer, w') = web.send request w in
      (created_name web.read_id web.read_message web.status_text answer, w')
