-- ===== src/Authn/Redirect/Targets.antt =====
-- crates/lakefs-authn/src/util/redirect.rs: where a browser may be sent.
use lakefs_auth.Common.{
  ◌≡◌, refl, sym, ap, ◌∙◌, ◌⊎◌, inl, inr, Bool, true, false, ◌||◌, Option, none, some, List, [],
  ◌∷◌, any, Bool-cases, arith,
}
use lakefs_auth.Std.Order.{Text, text_ord, ◌==◌, ==_iff}
use lakefs_auth.Std.Str.{codes, starts_with, is_control, to_ascii_lowercase, ascii_lower, split_at}
use lakefs_auth.Std.Sort.{has}
use lakefs_auth.Std.Result.{ok}
use lakefs_auth.Authn.Redirect.{
  Url, safe_next, is_protocol_relative, check_absolute, check_host, is_allowed, entry_allows,
  authority_of, is_http,
}

-- A path on this origin: behind its slash stands neither a slash nor a backslash, encoded or not.
pub record IsLocal (next : Text) : Type 0 where
  rest : Text
  rooted : next ≡ b'/' ∷ rest
  no_slash : starts_with rest (codes "/") ≡ false
  no_backslash : starts_with rest (codes "\\") ≡ false
  no_encoded_slash : starts_with (to_ascii_lowercase rest) (codes "%2f") ≡ false
  no_encoded_backslash : starts_with (to_ascii_lowercase rest) (codes "%5c") ≡ false

-- A URL over http or https whose authority an entry of the allow list names.
pub record IsListed (parse : Text → Option Url) (hosts : List Text) (next : Text) : Type 0 where
  url : Url
  host : Text
  entry : Text
  parsed : parse next ≡ some url
  web : is_http url.scheme ≡ true
  named : url.host_str ≡ some host
  listed : has hosts entry ≡ true
  matched :
      entry_allows url.scheme (authority_of host url.port) entry (split_at (codes "://") entry)
      ≡ true

or-false : (a b : Bool) → (a || b) ≡ false → (a ≡ false) × (b ≡ false)
or-false a b h = (ground arith, ground arith)

protocol_relative_parts :
    (rest : Text)
    → is_protocol_relative (b'/' ∷ rest)
      ≡ starts_with rest (codes "\\")
        || (starts_with (to_ascii_lowercase rest) (codes "/")
            || (starts_with (to_ascii_lowercase rest) (codes "%2f")
                || (starts_with (to_ascii_lowercase rest) (codes "%5c") || false)))
unfolding starts_with is_protocol_relative ascii_lower
protocol_relative_parts rest = refl

lowered_slash :
    (rest : Text)
    → starts_with (to_ascii_lowercase rest) (codes "/") ≡ false
    → starts_with rest (codes "/") ≡ false
unfolding starts_with ascii_lower
lowered_slash [] h = refl
lowered_slash (c ∷ rest) h = ground (arith, h)

rooted-IsLocal : (rest : Text) → is_protocol_relative (b'/' ∷ rest) ≡ false → IsLocal (b'/' ∷ rest)
rooted-IsLocal rest plain =
    let (no_backslash, more) = or-false _ _ (sym (protocol_relative_parts rest) ∙ plain) in
    let (no_slash, others) = or-false _ _ more in
    let (no_encoded_slash, last) = or-false _ _ others in
    record {
      rest = rest;
      rooted = refl;
      no_slash = lowered_slash rest no_slash;
      no_backslash = no_backslash;
      no_encoded_slash = no_encoded_slash;
      no_encoded_backslash = (or-false _ _ last).0;
    }

starts_with-slash :
    (next : Text) → starts_with next (codes "/") ≡ true → (rest : Text) × (next ≡ b'/' ∷ rest)
unfolding starts_with
starts_with-slash [] h = absurd (ground arith)
starts_with-slash (c ∷ rest) h = (rest, ground (arith, h))

any-has :
    (p : Text → Bool) (xs : List Text)
    → any p xs ≡ true
    → (x : Text) × (has xs x ≡ true) × (p x ≡ true)
any-has p [] h = absurd (ground arith)
any-has p (x ∷ xs) h = elim (Bool-cases (p x)) [
  | inl e ↦ (let first : (x == x) ≡ true = (==_iff x x).1 refl in (x, rw first refl, e))
  | inr e ↦
      let (y, listed, holds) = any-has p xs (ground (arith, e, h)) in
      (y, ground (arith, listed), holds)
]

module _ (parse : Text → Option Url) (hosts : List Text) where
  check_host-ok :
      (next target : Text) (url : Url) (host : Option Text)
      → parse next ≡ some url
      → is_http url.scheme ≡ true
      → url.host_str ≡ host
      → check_host hosts next url host ≡ ok target
      → IsListed parse hosts next × (target ≡ next)
  unfolding is_allowed
  check_host-ok next target url none parsed web named h = absurd (ground arith)
  check_host-ok next target url (some host) parsed web named h =
      elim (Bool-cases (is_allowed hosts url.scheme (authority_of host url.port))) [
        | inl e ↦
            let (entry, listed, matched) = any-has _ hosts e in
            (
              record {
                url = url;
                host = host;
                entry = entry;
                parsed = parsed;
                web = web;
                named = named;
                listed = listed;
                matched = matched;
              },
              ground (arith, e, h),
            )
        | inr e ↦ absurd (ground (arith, e, h))
      ]

  check_absolute-ok :
      (next target : Text) (url : Option Url)
      → parse next ≡ url
      → check_absolute hosts next url ≡ ok target
      → IsListed parse hosts next × (target ≡ next)
  check_absolute-ok next target none parsed h = absurd (ground arith)
  check_absolute-ok next target (some url) parsed h = elim (Bool-cases (is_http url.scheme)) [
    | inl web ↦ check_host-ok next target url url.host_str parsed web refl (ground (arith, web, h))
    | inr e ↦ absurd (ground (arith, e, h))
  ]

  -- A target that is accepted is used as it was given, has no control character, and is a path on
  -- this origin or a web URL that the allow list names.
  pub safe_next-ok :
      (next target : Text)
      → safe_next parse next hosts ≡ ok target
      → (target ≡ next) × (any is_control next ≡ false) × (IsLocal next ⊎ IsListed parse hosts next)
  unfolding safe_next
  safe_next-ok next target h = elim (Bool-cases (any is_control next)) [
    | inl control ↦ absurd (ground (arith, control, h))
    | inr clean ↦ elim (Bool-cases (starts_with next (codes "/"))) [
      | inl slash ↦ elim (Bool-cases (is_protocol_relative next)) [
        | inl relative ↦ absurd (ground (arith, clean, slash, relative, h))
        | inr plain ↦
            let (rest, rooted) = starts_with-slash next slash in
            (
              ground (arith, clean, slash, plain, h),
              clean,
              inl (rw rooted (rooted-IsLocal rest (ap is_protocol_relative (sym rooted) ∙ plain))),
            )
      ]
      | inr absolute ↦
          let (listed, same) =
            check_absolute-ok next target (parse next) refl (ground (arith, clean, absolute, h)) in
          (same, clean, inr listed)
    ]
  ]
