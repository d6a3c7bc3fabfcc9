-- ===== src/Core/Pagination.antt =====
-- crates/lakefs-auth-core/src/pagination.rs and model/list.rs: the `prefix` / `after` / `amount`
-- contract of a listing, and the cursor walk of a client.
pub mod Pages
use lakefs_auth.Common.{
  ℕ, suc, ◌+◌, ◌^◌, ◌-◌, Bool, true, false, ◌&&◌, ◌||◌, Option, none, some, List, [], ◌∷◌, map,
  is_some, is_empty, length, take, filter, get_last?, ltb, leb, if◌then◌else◌,
}
use lakefs_auth.Common
use lakefs_auth.Common.Int.{ℤ, pos, negsuc, pos_part, ◌+ℤ◌, ◌≤?ℤ◌}
use lakefs_auth.Std.Order.{Text, text_ord, ◌==◌, ◌<?◌}
use lakefs_auth.Std.Str.{starts_with}
use lakefs_auth.Std.Result.{Result, ok, err}
use mathlib.Core.Option

abbrev pub max_page : ℤ
max_page = pos 1000

abbrev pub default_page : ℤ
default_page = pos 100

pub record PaginationParams : Type 0 where
  pub prefix : Option Text
  pub after : Option Text
  pub amount : Option ℤ

pub record PageQuery : Type 0 where
  pub prefix : Text
  pub after : Text
  pub limit : ℤ

-- `normalize` keeps the limit at 1000 at most, so the sum stays within an `i64`.
unfoldable pub fetch_limit : PageQuery → ℤ
fetch_limit q = q.limit +ℤ pos 1

abbrev pub unwrap_or_default : Option Text → Text
unwrap_or_default none = []
unwrap_or_default (some s) = s

-- the `match` of `normalize`
unfoldable pub limit_of : Option ℤ → ℤ
limit_of none = default_page
limit_of (some amount) = if pos 1 ≤?ℤ amount && amount ≤?ℤ max_page then amount else max_page

unfoldable pub normalize : PaginationParams → PageQuery
unfolding limit_of
normalize p = record {
  prefix = unwrap_or_default p.prefix;
  after = unwrap_or_default p.after;
  limit = limit_of p.amount;
}

pub record Pagination : Type 0 where
  pub has_more : Bool
  pub next_offset : Text
  pub results : ℤ
  pub max_per_page : ℤ

pub record PageOf {ℓ} (T : Type ℓ) : Type ℓ where
  pub items : List T
  pub next_offset : Option Text

pub record ListResponse {ℓ} (T : Type ℓ) : Type ℓ where
  pub pagination : Pagination
  pub results : List T

-- `usize::try_from(n).unwrap_or(usize::MAX)`
abbrev pub usize_or_max : ℤ → ℕ
usize_or_max (pos n) = n
usize_or_max (negsuc n) = 2 ^ 64 - 1

-- `i64::try_from(n).unwrap_or(i64::MAX)`
abbrev pub i64_or_max : ℕ → ℤ
i64_or_max n = if ltb n (2 ^ 63) then pos n else pos (2 ^ 63 - 1)

module _ {ℓ} {T : Type ℓ} where
  unfoldable pub from_overfetch : List T → ℤ → (T → Text) → PageOf T
  from_overfetch rows limit key =
      let n = pos_part limit in
      if ltb n (length rows)
      then record { items = take n rows; next_offset = Option.map key (get_last? (take n rows)) }
      else record { items = rows; next_offset = none }

  unfoldable pub last : List T → PageOf T
  last items = record { items = items; next_offset = none }

  unfoldable pub into_response : PageOf T → ListResponse T
  into_response page = record {
    pagination = record {
      has_more = is_some page.next_offset;
      next_offset = unwrap_or_default page.next_offset;
      results = i64_or_max (length page.items);
      max_per_page = max_page;
    };
    results = page.items;
  }

module _ {ℓ κ} {T : Type ℓ} {U : Type κ} where
  unfoldable pub map_page : (T → U) → PageOf T → PageOf U
  map_page f page = record { items = map f page.items; next_offset = page.next_offset }

module _ {ℓ} {T : Type ℓ} where
  -- the filter of `page_sorted`
  abbrev pub in_page : Text → Text → Text × T → Bool
  in_page prefix after row = starts_with row.0 prefix && (after <? row.0)

  unfoldable pub page_sorted : List (Text × T) → PageQuery → PageOf T
  unfolding from_overfetch map_page fetch_limit
  page_sorted sorted query =
      let fetch = usize_or_max (fetch_limit query) in
      let rows = take fetch (filter (in_page query.prefix query.after) sorted) in
      map_page (λ r. r.1) (from_overfetch rows query.limit (λ r. r.0))

pub data CursorError : Type 0 where
  repeated : Text → CursorError
  too_many_pages : ℕ → CursorError

pub record CursorWalk : Type 0 where
  pub after : Text
  pub pages : ℕ
  pub max_pages : ℕ

unfoldable pub new_walk : ℕ → CursorWalk
new_walk max_pages = record { after = []; pages = 0; max_pages = max_pages }

-- `self.pages` is a `u32`; every caller stops a walk at `max_pages`, so it does not wrap.
unfoldable pub advance : CursorWalk → Text → Result Bool CursorError × CursorWalk
advance w next_offset =
    let counted = record w { pages = w.pages + 1 } in
    if is_empty next_offset
    then (ok false, counted)
    else if next_offset == w.after
    then (err (repeated next_offset), counted)
    else if leb w.max_pages counted.pages
    then (err (too_many_pages w.max_pages), counted)
    else (ok true, record counted { after = next_offset })

-- `escape_like_prefix`
abbrev pub is_like_special : ℕ → Bool
is_like_special c = Common.◌==◌ c b'\\' || Common.◌==◌ c b'%' || Common.◌==◌ c b'_'

unfoldable pub escape_like_prefix : Text → Text
escape_like_prefix [] = []
escape_like_prefix (c ∷ s) =
    if is_like_special c then b'\\' ∷ c ∷ escape_like_prefix s else c ∷ escape_like_prefix s
