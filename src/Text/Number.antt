-- ===== src/Text/Number.antt =====
-- strconv.Atoi, and the decimal form that fmt's %d prints.
use network_adapter.Prelude.{
  ℕ, zero, suc, ◌+◌, ◌-◌, ◌*◌, ◌/◌, ◌%◌, ◌^◌, Bool, true, false, ◌&&◌, Option, none, some, [], ◌∷◌,
  ◌==◌, leb, ltb, if◌then◌else◌, Str,
}

-- One digit for each round; a number has at most as many digits as its value plus one.
unfoldable pub decimal_from : ℕ → ℕ → Str → Str
decimal_from zero n acc = acc
decimal_from (suc fuel) n acc =
    let digit = b'0' + n % 10 in
    let rest = decimal_from fuel (n / 10) (digit ∷ acc) in if ltb n 10 then digit ∷ acc else rest

unfoldable pub decimal : ℕ → Str
decimal n = decimal_from (suc n) n []

digits_value : ℕ → Str → Option ℕ
digits_value acc [] = some acc
digits_value acc (c ∷ s) =
    let rest = digits_value (acc * 10 + (c - b'0')) s in
    if leb b'0' c && leb c b'9' then rest else none

unsigned : Str → Option ℕ
unfolding digits_value
unsigned [] = none
unsigned (c ∷ s) = digits_value 0 (c ∷ s)

-- An `int`: its sign and its magnitude.
pub record GoInt : Type 0 where
  pub negative : Bool
  pub magnitude : ℕ

-- The range check of a 64-bit `int`.
in_range : Bool → ℕ → Option GoInt
in_range neg n =
    if ltb n (if neg then 2 ^ 63 + 1 else 2 ^ 63)
    then some (record { negative = neg; magnitude = n })
    else none

signed : Bool → Option ℕ → Option GoInt
unfolding in_range
signed neg none = none
signed neg (some n) = in_range neg n

-- strconv.Atoi, none for its error.
unfoldable pub atoi : Str → Option GoInt
unfolding signed unsigned
atoi [] = none
atoi (c ∷ s) =
    if c == b'-'
    then signed true (unsigned s)
    else if c == b'+'
    then signed false (unsigned s)
    else signed false (unsigned (c ∷ s))
