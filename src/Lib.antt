-- ===== src/Lib.antt =====
-- The lakeFS authorization and authentication servers: the logic that their correctness rests on.
--
-- The program is four crates. `crates/lakefs-auth-core` holds the wire models, the errors, the
-- validation and the pagination; `crates/lakefs-authz` is the authorization API over a store;
-- `crates/lakefs-authz-client` is the client of that API; `crates/lakefs-authn` logs users in and
-- hands lakeFS a session cookie, whose body is a gob stream.
--
-- Files:
--   Common, Common/*: shared names, Boolean tests, lists and integers over the native numbers.
--   Std, Std/*: what the program uses of Rust's library: the order of strings and of keys, BTreeMap
--     as a sorted association list, `str` over code points, UTF-8, `Result`, `|` on bytes, the
--     parser of an `i64`, `sort` and `dedup`.
--   Core/Error, Core/Model, Core/Text, Core/Validate: error.rs, model, text.rs, validate.rs.
--   Core/Auth: auth/token.rs and auth/middleware.rs. Core/Tasks: tasks.rs, as the starts and
--     the sleeps of the supervisor.
--   Core/Pagination: pagination.rs and model/list.rs (normalize, from_overfetch, page_sorted, the
--     cursor walk); Core/Pagination/Pages is about what a page holds.
--   Client: list_user_groups of the client. What a request answers is an argument, because HTTP is
--     not the program's. The loop has MAX_PAGES rounds of fuel.
--   Client/Ensure: ensure_user and what it calls, over the requests that it makes; Ensure/Calls is about
--     the sequence of these requests, Ensure/Creations about the creates in it.
--   Store/Types, Store/Error: store/types.rs and store/error.rs.
--   Store/Mem: store/mem.rs. Inner is the record of tables; a method that takes the write lock
--     is a function on it, and Calls names each of them as a step but for apply_bootstrap,
--     which runs its plan on a copy without the lock and is Store/Bootstrap/Inner. Mem/Invariant says what holds
--     between two steps, Mem/Effects what one call does to what a later one reads,
--     and Mem/Effective which policies hold for a user.
--   Store/Bootstrap: store/bootstrap.rs, over any writer; Bootstrap/Inner is the writer of
--     the store in memory.
--     Bootstrap/Settles is about entries that are in place, Bootstrap/Again about a second run.
--   Bootstrap: bootstrap.rs of lakefs-authz: Bootstrap/File is what a file holds, Bootstrap/Plan its
--     conversion to a plan; Bootstrap/Checked is about what a plan holds.
--   Core/Crypto: crypto/secretbox.rs and crypto/keygen.rs, over any cipher and any random numbers.
--   Service: service.rs over the store in memory: Service is about users, groups and token ids,
--     Service/PolicyRequests about policies, Service/KeyRequests about access keys; Service/Repeats,
--     with Repeats/Claims for token ids,
--     and Service/Reordering are about repeated requests, Service/Secrets about keys read back.
--   Handlers: handlers and routes.rs of lakefs-authz, over the service layer.
--   LakeFs: lakefs.rs of lakefs-authz, over a state of lakeFS; LakeFs/Ends is about its loop. Builder:
--     policy_builder.rs; Builder/Guarded is about which requests reach lakeFS.
--   Core/Catalog: catalog.rs. Cleanup: cleanup.rs, by the times of its ticks.
--   Authn/Gob: lakefs/gob.rs. A `Cursor` is the bytes that it has left.
--   Authn/SecureCookie: lakefs/securecookie.rs, over any Base64 and any keyed MAC; Authn/Session:
--     lakefs/session.rs, which puts the gob stream of a token into such a cookie.
--   Authn/Claims: oidc/claims.rs and the groups claim of oidc/types.rs, over a type of JSON values.
--   Authn/Provision: provision.rs, over the requests of Client/Ensure.
--   Authn/Redirect: util/redirect.rs and the redirect URIs of routes/sts.rs, over any URL parser.
--   Authn/Oidc: oidc/mod.rs: the metadata that the provider holds, its refresh, its first discovery and
--     the check of a token. A discovery is an argument: its start, its end and its answer; the refresh
--     says whether it was made.
--   Authn/Browser: the callback of routes/browser.rs, over what AppState offers to it; Browser/Routes is
--     its three handlers. Authn/Sts: the login of routes/sts.rs.
--   Tests: the theorems at concrete values.
--
-- Numbers are natural numbers; a `u64` keeps its wrap in the gob codec, and a counter of the report
-- of a bootstrap its wrap at 2^32. `next_user_id` counts creates and is taken not to wrap.
-- Timestamps are a type `T`, because jiff is a third-party crate; its conversions and `>` are
-- arguments, as are serde_json's reading of a list and the answers of a server. Base64, the HMAC, the
-- check of a JWT, the cipher, the YAML parser, random numbers and the printing of JSON are arguments too, and so is the current time.
--
-- Fuel: the client's walk has as many rounds as it reads pages at most, and ends within them;
-- `from_utf8` has a round for each byte, and each round takes a byte at least; a number is printed
-- with 20 digits of room, and an `i64` has 19; the first discovery has as many rounds as attempts are
-- looked at;
-- a listing of lakeFS has as many rounds as pages are read at most, and ends within them.
--
-- Not modelled: the PostgreSQL store (SQL), HTTP and its routing, the talk with an identity
-- provider, the ciphers, configuration, metrics and telemetry, because they call libraries for what
-- they do.
pub mod Common
pub mod Std
pub mod Core
pub mod Client
pub mod Store
pub mod Bootstrap
pub mod LakeFs
pub mod Builder
pub mod Cleanup
pub mod Service
pub mod Handlers
pub mod Authn
pub mod Tests
