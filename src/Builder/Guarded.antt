-- ===== src/Builder/Guarded.antt =====
-- crates/lakefs-authz/src/policy_builder.rs: which requests reach lakeFS.
use lakefs_auth.Common.{
  ◌≡◌, refl, ap, ◌∙◌, ◌⊎◌, inl, inr, Bool, true, false, ◌||◌, Option, none, some, List, ◌++◌, arith,
  Option-cases,
}
use lakefs_auth.Std.Order.{Text}
use lakefs_auth.Std.Str.{codes, split_at, eq_ignore_ascii_case}
use lakefs_auth.Std.Result.{
  Result, ok, err, Result-cases, bind-ok, ok_or, map_err, ok_or-ok, map_err-ok,
}
use lakefs_auth.Core.Validate.{validate_policy}
use lakefs_auth.LakeFs.{Web, LakeFsClient, Session, Request, Method, from_cookie_header}
use lakefs_auth.LakeFs
use lakefs_auth.Builder.{
  BuilderError, HeaderMap, BuilderState, PolicyRequest, authority_of, unwrap_or_default,
  check_origin, same_origin, session_of, live, admitted, created, create_policy,
}

-- A browser that speaks of the site calls it its own, or says that the user started the request
-- (`none`); a request that does not speak of it has no origin, or one that names this host.
abbrev pub IsOwn : HeaderMap → Type 0
IsOwn headers =
    ((site : Text) × (headers.sec_fetch_site ≡ some site)
      × ((eq_ignore_ascii_case site (codes "same-origin") ≡ true)
          ⊎ (eq_ignore_ascii_case site (codes "none") ≡ true)))
    ⊎ ((headers.sec_fetch_site ≡ none)
        × ((headers.origin ≡ none)
            ⊎ ((origin : Text) × (headers.origin ≡ some origin)
                × (eq_ignore_ascii_case (authority_of origin (split_at (codes "://") origin))
                      (unwrap_or_default headers.host)
                    ≡ true))))

or-true : (a b : Bool) → a || b ≡ true → (a ≡ true) ⊎ (b ≡ true)
or-true true b h = inl refl
or-true false b h = inr h

check_origin-ok :
    (origin host : Option Text)
    → check_origin origin host ≡ ok tt
    → (origin ≡ none)
      ⊎ ((o : Text) × (origin ≡ some o)
          × (eq_ignore_ascii_case
                (authority_of o (split_at (codes "://") o))
                (unwrap_or_default host)
              ≡ true))
unfolding check_origin
check_origin-ok none host h = inl refl
check_origin-ok (some o) host h = inr (o, refl, ground (arith, h))

same_origin-IsOwn : (headers : HeaderMap) → same_origin headers ≡ ok tt → IsOwn headers
unfolding same_origin
same_origin-IsOwn headers h = elim (Option-cases headers.sec_fetch_site) [
  | inl silent ↦
      inr (silent, check_origin-ok headers.origin headers.host (ground (arith, silent, h)))
  | inr (site, spoken) ↦ inl (
    site,
    spoken,
    or-true (eq_ignore_ascii_case site (codes "same-origin"))
        (eq_ignore_ascii_case site (codes "none")) (ground (arith, spoken, h)),
  )
]

-- The create that lakeFS is asked for.
abbrev pub post_of : LakeFsClient → Session → PolicyRequest → Request
post_of client session request = record {
  method = Method.post;
  url = client.endpoint ++ codes "/auth/policies";
  cookie = session.header;
  body = some (request.name, request.statement);
}

module _ {W : Type 0} (web : Web W) (from_str : Text → Option Text) (state : BuilderState)
    (from_json : Text → Result (List Text) Text) where
  -- What holds of a request that is passed on, with the state that lakeFS is left in.
  pub record IsAllowed (headers : HeaderMap) (request : PolicyRequest) (w after : W) : Type 0 where
    pub own : IsOwn headers
    pub client : LakeFsClient
    pub configured : state.lakefs ≡ some client
    pub session : Session
    pub cookie : Text
    pub sent : headers.cookie ≡ some cookie
    pub signed_in : from_cookie_header from_str cookie ≡ some session
    pub valid : validate_policy from_json request.name request.statement ≡ ok tt
    pub asked : after ≡ (web.send (post_of client session request) w).1

  session_of-some :
      (headers : HeaderMap) (session : Session)
      → session_of from_str headers ≡ some session
      → (cookie : Text) × (headers.cookie ≡ some cookie)
        × (from_cookie_header from_str cookie ≡ some session)
  session_of-some headers session h = elim (Option-cases headers.cookie) [
    | inl no_cookie ↦ absurd (ground (arith, no_cookie, h))
    | inr (cookie, sent) ↦ (cookie, sent, ground (arith, sent, h))
  ]

  passed_on :
      (headers : HeaderMap) (request : PolicyRequest) (w : W) (client : LakeFsClient)
      (session : Session)
      → admitted web from_str state from_json headers request ≡ ok (client, session)
      → IsAllowed headers request w (created web from_str state request w (ok (client, session))).1
  unfolding admitted live LakeFs.create_policy
  passed_on headers request w client session h =
      let (u, own, h1) = bind-ok (same_origin headers) _ (client, session) h in
      let (found, living, h2) = bind-ok (live from_str state headers) _ (client, session) h1 in
      let (v, valid, same) =
        bind-ok
          (map_err BuilderError.invalid (validate_policy from_json request.name request.statement))
          (λ _. ok found) (client, session) h2 in
      let (c, configured, l1) =
        bind-ok (ok_or BuilderError.no_lakefs state.lakefs) _ found living in
      let (s, signed, l2) =
        bind-ok (ok_or BuilderError.no_session (session_of from_str headers)) _ found l1 in
      let both : ◌≡◌ {A = LakeFsClient × Session} (c, s) (client, session) = cc in
      let (cookie, sent, signed_in) =
        session_of-some headers s (ok_or-ok _ (session_of from_str headers) s signed) in
      record {
        own = same_origin-IsOwn headers own;
        client = client;
        configured = ok_or-ok _ state.lakefs c configured ∙ ap (λ p. some p.0) both;
        session = session;
        cookie = cookie;
        sent = sent;
        signed_in = signed_in ∙ ap (λ p. some p.1) both;
        valid = map_err-ok _ _ v valid;
        asked = refl;
      }

  -- A request to create a policy either fails before lakeFS is asked, which is left as it is, or it
  -- passes the check of its origin, as `IsOwn` says, carries the session of its sender, and holds a
  -- policy that the API accepts; lakeFS is then asked once, for that policy, with that session.
  pub create_policy-IsGuarded :
      (headers : HeaderMap) (request : PolicyRequest) (w : W)
      → ((e : BuilderError) × (create_policy web from_str state from_json headers request w
            ≡ (err e, w)))
        ⊎ IsAllowed headers request w
            (create_policy web from_str state from_json headers request w).1
  unfolding create_policy
  create_policy-IsGuarded headers request w =
      elim (Result-cases (admitted web from_str state from_json headers request)) [
        | inr (e, refused) ↦ inl (e, rw refused refl)
        | inl ((client, session), passed) ↦
            inr (rw passed (passed_on headers request w client session passed))
      ]
