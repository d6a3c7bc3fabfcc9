-- ===== src/Std/Str.antt =====
-- Rust's `str`, over its code points, and what the program calls of it.
use lakefs_auth.Common.{
  drop, length, ℕ, zero, suc, ◌+◌, ◌-◌, ◌/◌, ◌%◌, Bool, true, false, not, ◌&&◌, ◌||◌, Option, none,
  some, String, List, [], ◌∷◌, ◌++◌, map, ltb, leb, any, is_empty, if◌then◌else◌, Ordering,
}
use lakefs_auth.Common
use lakefs_auth.Common.Int.{ℤ, pos, negsuc}
use lakefs_auth.Std.Order.{Text, text_ord, ◌==◌}
use mathlib.Core.List.{reverse}
use Prim.Native.Char.{code}

-- A literal's code points.
abbrev pub codes : String → Text
codes String.[] = []
codes (String.◌∷◌ c s) = code c ∷ codes s

-- `c.len_utf8()`
abbrev pub len_utf8 : ℕ → ℕ
len_utf8 c = if ltb c 0x80 then 1 else if ltb c 0x800 then 2 else if ltb c 0x10000 then 3 else 4

-- `s.len()`: bytes
unfoldable pub len : Text → ℕ
len [] = 0
len (c ∷ s) = len_utf8 c + len s

-- `s.starts_with(p)`
unfoldable pub starts_with : Text → Text → Bool
starts_with s [] = true
starts_with [] (d ∷ p) = false
starts_with (c ∷ s) (d ∷ p) = (Common.◌==◌ c d) && starts_with s p

-- `s.ends_with(p)`
unfoldable pub ends_with : Text → Text → Bool
ends_with s p = starts_with (reverse s) (reverse p)

-- `s.contains(c)`
unfoldable pub contains_char : ℕ → Text → Bool
contains_char d s = any (λ c. Common.◌==◌ c d) s

-- `char::is_control`: the category Cc
unfoldable pub is_control : ℕ → Bool
is_control c = ltb c 0x20 || leb 0x7f c && leb c 0x9f

-- `char::is_whitespace`: the property White_Space
unfoldable pub is_whitespace : ℕ → Bool
is_whitespace c =
    leb 0x9 c && leb c 0xd
    || Common.◌==◌ c 0x20
    || Common.◌==◌ c 0x85
    || Common.◌==◌ c 0xa0
    || Common.◌==◌ c 0x1680
    || leb 0x2000 c && leb c 0x200a
    || Common.◌==◌ c 0x2028
    || Common.◌==◌ c 0x2029
    || Common.◌==◌ c 0x202f
    || Common.◌==◌ c 0x205f
    || Common.◌==◌ c 0x3000

-- `trim_start_matches(p)` and `trim_end_matches(p)`
unfoldable pub trim_start_matches : (ℕ → Bool) → Text → Text
trim_start_matches p [] = []
trim_start_matches p (c ∷ s) = if p c then trim_start_matches p s else c ∷ s

unfoldable pub trim_end_matches : (ℕ → Bool) → Text → Text
unfolding trim_start_matches
trim_end_matches p s = reverse (trim_start_matches p (reverse s))

-- `s.trim()`
unfoldable pub trim : Text → Text
unfolding trim_end_matches is_whitespace
trim s = trim_end_matches is_whitespace (trim_start_matches is_whitespace s)

-- `to_ascii_lowercase`
unfoldable pub ascii_lower : ℕ → ℕ
ascii_lower c = if leb b'A' c && leb c b'Z' then c + 32 else c

abbrev pub to_ascii_lowercase : Text → Text
to_ascii_lowercase = map ascii_lower

abbrev pub eq_ignore_ascii_case : Text → Text → Bool
eq_ignore_ascii_case s t = to_ascii_lowercase s == to_ascii_lowercase t

-- `s.split_once(c)`
abbrev pub behind : ℕ → Option (Text × Text) → Option (Text × Text)
behind d none = none
behind d (some (front, back)) = some (d ∷ front, back)

unfoldable pub split_once : ℕ → Text → Option (Text × Text)
split_once c [] = none
split_once c (d ∷ s) = if Common.◌==◌ d c then some ([], s) else behind d (split_once c s)

-- `s.splitn(n, c)`
unfoldable pub splitn : ℕ → ℕ → Text → List Text
splitn zero c s = []
splitn (suc zero) c s = s ∷ []
splitn (suc (suc n)) c s = elim (split_once c s) [
  | none ↦ s ∷ []
  | some (front, back) ↦ front ∷ splitn (suc n) c back
]

-- `Display` of a number; an `i64` has 19 digits at most.
unfoldable pub digits : ℕ → ℕ → Text → Text
digits zero n rest = rest
digits (suc fuel) n rest =
    let more = digits fuel (n / 10) ((48 + n % 10) ∷ rest) in
    if ltb n 10 then (48 + n) ∷ rest else more

unfoldable pub decimal : ℤ → Text
unfolding digits
decimal (pos n) = digits 20 n []
decimal (negsuc n) = 45 ∷ digits 20 (suc n) []

-- `s.split(c)`
abbrev pub onto_first : ℕ → List Text → List Text
onto_first d [] = (d ∷ []) ∷ []
onto_first d (part ∷ parts) = (d ∷ part) ∷ parts

unfoldable pub split : ℕ → Text → List Text
split c [] = [] ∷ []
split c (d ∷ s) = let rest = split c s in if Common.◌==◌ d c then [] ∷ rest else onto_first d rest

-- `parts.join(separator)`
unfoldable pub join : Text → List Text → Text
join separator [] = []
join separator (part ∷ []) = part
join separator (part ∷ next ∷ parts) = part ++ (separator ++ join separator (next ∷ parts))

-- `s.split_once(separator)` of a text
unfoldable pub split_at : Text → Text → Option (Text × Text)
unfolding starts_with
split_at separator [] = if starts_with [] separator then some ([], []) else none
split_at separator (c ∷ s) =
    let rest = behind c (split_at separator s) in
    if starts_with (c ∷ s) separator then some ([], drop (length separator) (c ∷ s)) else rest

-- `s.lines()`: a line ends with `\n` or `\r\n`, and an end at the end opens no further line.
unfoldable pub without_return : Text → Text
without_return [] = []
without_return (c ∷ []) = if Common.◌==◌ c 13 then [] else c ∷ []
without_return (c ∷ d ∷ s) = c ∷ without_return (d ∷ s)

unfoldable pub ended_lines : List Text → List Text
unfolding without_return
ended_lines [] = []
ended_lines (last ∷ []) = if is_empty last then [] else last ∷ []
ended_lines (line ∷ next ∷ parts) = without_return line ∷ ended_lines (next ∷ parts)

unfoldable pub lines : Text → List Text
unfolding split ended_lines
lines s = ended_lines (split 10 s)
