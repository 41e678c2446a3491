-- ===== src/Base64.antt =====
-- base64.StdEncoding of encoding/base64, over bytes.
pub mod Laws
use network_adapter.Prelude.{
  ℕ, suc, ◌+◌, ◌-◌, ◌*◌, ◌/◌, ◌%◌, ◌<◌, ◌≡◌, refl, ap, ◌∙◌, ◌≢◌, true, false, is_empty, Bool, ◌||◌,
  Option, none, some, [], ◌∷◌, ◌++◌, arith, ◌==◌, leb, ltb, ◌&&◌, if◌then◌else◌, Str, All,
}
use network_adapter.Text.{str, decimal, Without}
use network_adapter.Errors.{plain}
use network_adapter.Result.{Res, ok, err, ◌>>=◌}

unfoldable pub letter : ℕ → ℕ
letter v =
    if ltb v 26
    then b'A' + v
    else if ltb v 52
    then b'a' + (v - 26)
    else if ltb v 62
    then b'0' + (v - 52)
    else if v == 62
    then b'+'
    else b'/'

-- The decoding table, none for its 0xff.
unfoldable pub letter_value : ℕ → Option ℕ
letter_value c =
    if leb b'A' c && leb c b'Z'
    then some (c - b'A')
    else if leb b'a' c && leb c b'z'
    then some (c - b'a' + 26)
    else if leb b'0' c && leb c b'9'
    then some (c - b'0' + 52)
    else if c == b'+'
    then some 62
    else if c == b'/'
    then some 63
    else none

-- EncodeToString
unfoldable pub encode : Str → Str
unfolding letter
encode [] = []
encode (a ∷ []) = letter (a / 4) ∷ letter (a % 4 * 16) ∷ b'=' ∷ b'=' ∷ []
encode (a ∷ b ∷ []) =
    letter (a / 4) ∷ letter (a % 4 * 16 + b / 16) ∷ letter (b % 16 * 4) ∷ b'=' ∷ []
encode (a ∷ b ∷ c ∷ s) =
    letter (a / 4)
    ∷ letter (a % 4 * 16 + b / 16)
    ∷ letter (b % 16 * 4 + c / 64)
    ∷ letter (c % 64)
    ∷ encode s

-- The letters of the quantum that is being read.
pub data Quantum : Type 0 where
  no_letter : Quantum
  one_letter : ℕ → Quantum
  two_letters : ℕ → ℕ → Quantum
  three_letters : ℕ → ℕ → ℕ → Quantum

-- The quantum with one more letter, and the bytes that it completes.
abbrev pub with_letter : Quantum → ℕ → Quantum
with_letter no_letter v = one_letter v
with_letter (one_letter p) v = two_letters p v
with_letter (two_letters p q) v = three_letters p q v
with_letter (three_letters p q r) v = no_letter

abbrev pub completed : Quantum → ℕ → Str → Str
completed (three_letters p q r) v s =
    (p * 4 + q / 16) ∷ (q % 16 * 16 + r / 4) ∷ (r % 4 * 64 + v) ∷ s
completed _ v s = s

abbrev corrupt : ℕ → Res Str
corrupt n = err (plain (str "illegal base64 data at input byte " ++ decimal n))

abbrev is_newline : ℕ → Bool
is_newline c = c == 10 || c == 13

-- The position and the rest behind the newlines.
unfoldable skip_newlines : ℕ → Str → ℕ × Str
skip_newlines si [] = (si, [])
skip_newlines si (c ∷ s) = if is_newline c then skip_newlines (suc si) s else (si, c ∷ s)

-- Nothing but newlines may stand behind the padding.
abbrev nothing_left : ℕ × Str → Str → Res Str
nothing_left (si, []) bytes = ok bytes
nothing_left (si, c ∷ s) bytes = corrupt si

-- The second character of the padding of two letters.
abbrev second_pad : ℕ × Str → ℕ → ℕ → Res Str
second_pad (si, []) p q = corrupt si
second_pad (si, c ∷ s) p q =
    if c == b'='
    then nothing_left (skip_newlines (suc si) s) ((p * 4 + q / 16) ∷ [])
    else corrupt (si - 1)

-- What follows the first character of the padding, at `si`.
abbrev padded : ℕ → Quantum → Str → Res Str
padded si (two_letters p q) s = second_pad (skip_newlines (suc si) s) p q
padded si (three_letters p q r) s =
    nothing_left (skip_newlines (suc si) s) ((p * 4 + q / 16) ∷ (q % 16 * 16 + r / 4) ∷ [])
padded si _ s = corrupt si

abbrev at_end : ℕ → Quantum → Res Str
at_end si no_letter = ok []
at_end si (one_letter p) = corrupt (si - 1)
at_end si (two_letters p q) = corrupt (si - 2)
at_end si (three_letters p q r) = corrupt (si - 3)

abbrev after_letter : Quantum → Option ℕ → Quantum
after_letter q none = q
after_letter q (some v) = with_letter q v

abbrev read_letter : ℕ → Quantum → ℕ → Str → Res Str → Option ℕ → Res Str
read_letter si q c s rest (some v) = rest >>= λ bytes. ok (completed q v bytes)
read_letter si q c s rest none =
    if is_newline c then rest else if c == b'=' then padded si q s else corrupt si

-- decodeQuantum, over and over, from the position `si`.
unfoldable pub decode_from : ℕ → Quantum → Str → Res Str
unfolding letter_value skip_newlines decimal
decode_from si q [] = at_end si q
decode_from si q (c ∷ s) =
    let rest = decode_from (suc si) (after_letter q (letter_value c)) s in
    read_letter si q c s rest (letter_value c)

-- DecodeString
unfoldable pub decode : Str → Res Str
decode s = decode_from 0 no_letter s

-- A text of bytes.
abbrev pub IsBytes : Str → Type 0
IsBytes s = All (λ b. b < 256) s
