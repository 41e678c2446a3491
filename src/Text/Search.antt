-- ===== src/Text/Search.antt =====
-- strings.HasPrefix, TrimPrefix, Index, Contains and TrimSpace.
use Prim.Native.Char.{code}
use mathlib.Core.Option
use network_adapter.Prelude.{
  ℕ, ◌≡◌, refl, ◌≢◌, String, Bool, false, ◌||◌, ◌&&◌, Option, none, some, [], ◌∷◌, ◌++◌, reverse,
  arith, ◌==◌, leb, if◌then◌else◌, is_some, get_or, Str, All,
}

-- The code points of a literal.
abbrev pub str : String → Str
str String.[] = []
str (String.◌∷◌ c s) = code c ∷ str s

-- The text behind a prefix.
unfoldable pub strip_prefix : Str → Str → Option Str
strip_prefix [] s = some s
strip_prefix (p ∷ ps) [] = none
strip_prefix (p ∷ ps) (c ∷ s) = if p == c then strip_prefix ps s else none

-- strings.HasPrefix(s, prefix)
unfoldable pub has_prefix : Str → Str → Bool
unfolding strip_prefix
has_prefix prefix s = is_some (strip_prefix prefix s)

-- strings.TrimPrefix(s, prefix)
unfoldable pub trim_prefix : Str → Str → Str
unfolding strip_prefix
trim_prefix prefix s = get_or (strip_prefix prefix s) s

-- `s[i+len(sub):]` for `i = strings.Index(s, sub)`, and none where the index is -1.
unfoldable pub after_first : Str → Str → Option Str
unfolding strip_prefix
after_first sub [] = strip_prefix sub []
after_first sub (c ∷ s) = elim (strip_prefix sub (c ∷ s)) [
  | some rest ↦ some rest
  | none ↦ after_first sub s
]

-- `s[:i]` for `i = strings.IndexByte(s, b)`, and none where the index is -1.
unfoldable pub before_byte : ℕ → Str → Option Str
before_byte b [] = none
before_byte b (c ∷ s) =
    if c == b then some [] else Option.map (λ (t : Str). c ∷ t) (before_byte b s)

-- strings.Contains(s, sub)
unfoldable pub contains : Str → Str → Bool
unfolding after_first
contains sub s = is_some (after_first sub s)

-- unicode.IsSpace
unfoldable pub is_space : ℕ → Bool
is_space c =
    (leb 9 c && leb c 13)
    || (c == 32
        || (c == 0x85
            || (c == 0xa0
                || (c == 0x1680
                    || ((leb 0x2000 c && leb c 0x200a)
                        || (c == 0x2028
                            || (c == 0x2029 || (c == 0x202f || (c == 0x205f || c == 0x3000)))))))))

unfoldable pub trim_left : Str → Str
unfolding is_space
trim_left [] = []
trim_left (c ∷ s) = if is_space c then trim_left s else c ∷ s

-- strings.TrimSpace
unfoldable pub trim_space : Str → Str
unfolding trim_left
trim_space s = reverse (trim_left (reverse (trim_left s)))

-- A text that holds no white space.
abbrev pub NoSpace : Str → Type 0
NoSpace s = All (λ c. is_space c ≡ false) s

-- A text without the code point `b`.
abbrev pub Without : ℕ → Str → Type 0
Without b s = All (λ c. c ≢ b) s

pub strip_prefix-append : (p s : Str) → strip_prefix p (p ++ s) ≡ some s
unfolding strip_prefix
strip_prefix-append [] s = refl
strip_prefix-append (c ∷ p) s = ground (arith, strip_prefix-append p s)

pub before_byte-append : (b : ℕ) (s t : Str) → Without b s → before_byte b (s ++ b ∷ t) ≡ some s
unfolding before_byte
before_byte-append b [] t h = ground arith
before_byte-append b (c ∷ s) t h = ground (arith, before_byte-append b s t h.1)

pub after_first_here : (p s : Str) → after_first p (p ++ s) ≡ some s
unfolding after_first
after_first_here [] [] = refl
after_first_here [] (c ∷ s) = refl
after_first_here (c ∷ p) s = ground (arith, strip_prefix-append (c ∷ p) s)
