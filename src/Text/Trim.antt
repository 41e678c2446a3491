-- ===== src/Text/Trim.antt =====
-- Go's `strings` functions on cutsets, suffixes and letter case.
use network_adapter.Prelude.{
  ℕ, Bool, true, false, ◌&&◌, ◌||◌, Option, none, some, [], ◌∷◌, ◌+◌, ◌-◌, reverse, is_some, get_or,
  if◌then◌else◌, ◌==◌, leb, ltb, map, Str, str_eq,
}
use network_adapter.Text.Search.{strip_prefix}

-- strings.SplitN(s, sep, 2) for one character, none where it gives one part.
unfoldable pub cut : ℕ → Str → Option (Str × Str)
cut sep [] = none
cut sep (c ∷ s) =
    if c == sep
    then some ([], s)
    else elim (cut sep s) [ none ↦ none | some (before, after) ↦ some (c ∷ before, after) ]

unfoldable pub trim_left_of : ℕ → Str → Str
trim_left_of b [] = []
trim_left_of b (c ∷ s) = if c == b then trim_left_of b s else c ∷ s

-- strings.Trim(s, cutset) for one character.
unfoldable pub trim_of : ℕ → Str → Str
unfolding trim_left_of
trim_of b s = reverse (trim_left_of b (reverse (trim_left_of b s)))

abbrev pub reversed : Option Str → Option Str
reversed none = none
reversed (some s) = some (reverse s)

-- The text in front of a suffix.
unfoldable pub strip_suffix : Str → Str → Option Str
unfolding strip_prefix
strip_suffix suffix s = reversed (strip_prefix (reverse suffix) (reverse s))

-- strings.HasSuffix(s, suffix)
unfoldable pub has_suffix : Str → Str → Bool
unfolding strip_suffix
has_suffix suffix s = is_some (strip_suffix suffix s)

-- strings.TrimSuffix(s, suffix)
unfoldable pub trim_suffix : Str → Str → Str
unfolding strip_suffix
trim_suffix suffix s = get_or (strip_suffix suffix s) s

-- The letter of a case-insensitive comparison with an ASCII text: besides the capitals, the long s
-- and the Kelvin sign fold to a letter of ASCII.
unfoldable pub fold_case : ℕ → ℕ
fold_case c =
    if leb b'A' c && leb c b'Z'
    then c + 32
    else if c == 0x17f
    then b's'
    else if c == 0x212a
    then b'k'
    else c

-- strings.EqualFold(s, ascii)
unfoldable pub equal_fold : Str → Str → Bool
unfolding fold_case str_eq
equal_fold s ascii = str_eq (map fold_case s) (map fold_case ascii)

-- strings.ToLower and ToUpper of a text of ASCII.
abbrev pub lower_letter : ℕ → ℕ
lower_letter c = if leb b'A' c && leb c b'Z' then c + 32 else c

abbrev pub upper_letter : ℕ → ℕ
upper_letter c = if leb b'a' c && leb c b'z' then c - 32 else c

-- s < t
unfoldable pub str_lt : Str → Str → Bool
str_lt s [] = false
str_lt [] (d ∷ t) = true
str_lt (c ∷ s) (d ∷ t) = ltb c d || (c == d && str_lt s t)
