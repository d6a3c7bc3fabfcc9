-- ===== src/Core/Text.antt =====
-- crates/lakefs-auth-core/src/text.rs
use lakefs_auth.Common.{
  ℕ, Bool, Option, none, some, List, [], ◌∷◌, is_empty, not, ◌&&◌, ◌||◌, leb, if◌then◌else◌,
}
use lakefs_auth.Common
use lakefs_auth.Std.Order.{Text}
use lakefs_auth.Std.Str.{trim, trim_start_matches, trim_end_matches}

-- Trims a value, and drops it when nothing is left.
unfoldable pub non_blank : Text → Option Text
unfolding trim
non_blank value = let trimmed = trim value in if is_empty trimmed then none else some trimmed

unfoldable pub normalize_base_path : Text → Text
unfolding trim trim_start_matches trim_end_matches
normalize_base_path base_path =
    let slash : ℕ → Bool = λ c. Common.◌==◌ c b'/' in
    let trimmed = trim_end_matches slash (trim_start_matches slash (trim base_path)) in
    if is_empty trimmed then [] else b'/' ∷ trimmed

-- What stays as it is in a path segment: `NON_ALPHANUMERIC` without `-`, `.`, `_` and `~`.
unfoldable pub is_encoded : ℕ → Bool
is_encoded c = not (
    leb b'a' c && leb c b'z'
    || leb b'A' c && leb c b'Z'
    || leb b'0' c && leb c b'9'
    || Common.◌==◌ c b'-'
    || Common.◌==◌ c b'.'
    || Common.◌==◌ c b'_'
    || Common.◌==◌ c b'~')

-- `utf8_percent_encode` encodes the bytes of a set.
abbrev pub path_segment : ((ℕ → Bool) → Text → Text) → Text → Text
path_segment utf8_percent_encode value = utf8_percent_encode is_encoded value
