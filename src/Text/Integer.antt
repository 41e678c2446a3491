-- ===== src/Text/Integer.antt =====
-- strconv.ParseInt in base 10 for 64 bits, and the decimal form of a signed number.
use network_adapter.Prelude.{
  ℕ, zero, suc, ◌+◌, ◌-◌, ◌*◌, ◌/◌, ◌%◌, ◌^◌, ◌<◌, ◌≤◌, ◌≡◌, refl, Bool, true, false, ◌||◌, [], ◌∷◌,
  arith, ◌==◌, leb, ltb, if◌then◌else◌, Str, ap, ◌∙◌, sym, subst, is_empty, if-both, if-both_when,
}
use network_adapter.Text.Number.{GoInt, decimal, decimal_from}

-- strconv's answers: a value, ErrSyntax or ErrRange.
pub data Parsed {ℓ} (A : Type ℓ) : Type ℓ where
  value : A → Parsed A
  syntax : Parsed A
  range : Parsed A

-- The loop of ParseUint, which stops at the first number that does not fit 64 bits.
digits_from : ℕ → Str → Parsed ℕ
digits_from n [] = value n
digits_from n (c ∷ s) =
    let next = n * 10 + (c - b'0') in
    let rest = digits_from next s in
    if ltb c b'0' || ltb b'9' c
    then syntax
    else if leb (2 ^ 64 / 10 + 1) n || leb (2 ^ 64) next
    then range
    else rest

-- ParseUint
unfoldable pub parse_uint : Str → Parsed ℕ
unfolding digits_from
parse_uint [] = syntax
parse_uint (c ∷ s) = digits_from 0 (c ∷ s)

abbrev with_sign : Bool → Parsed ℕ → Parsed GoInt
with_sign neg (value n) =
    if ltb n (if neg then 2 ^ 63 + 1 else 2 ^ 63)
    then value (record { negative = neg; magnitude = n })
    else range
with_sign neg syntax = syntax
with_sign neg range = range

-- ParseInt
unfoldable pub parse_int : Str → Parsed GoInt
unfolding parse_uint
parse_int [] = syntax
parse_int (c ∷ s) =
    if c == b'+'
    then with_sign false (parse_uint s)
    else if c == b'-'
    then with_sign true (parse_uint s)
    else with_sign false (parse_uint (c ∷ s))

-- %d
unfoldable pub int_text : GoInt → Str
int_text i = if i.negative then b'-' ∷ decimal i.magnitude else decimal i.magnitude

-- The number that a text of digits appends to `n`.
appended : ℕ → Str → ℕ
appended n [] = n
appended n (c ∷ s) = appended (n * 10 + (c - b'0')) s

abbrev IsDigits : Str → Type 0
IsDigits [] = Unit
IsDigits (c ∷ s) = (b'0' ≤ c) × (c ≤ b'9') × IsDigits s

le-appended : (n : ℕ) (s : Str) → n ≤ appended n s
unfolding appended
le-appended n [] = omega arith
le-appended n (c ∷ s) = omega (arith, le-appended (n * 10 + (c - b'0')) s)

digits_from-IsDigits :
    (n : ℕ) (s : Str) → IsDigits s → appended n s < 2 ^ 63 → digits_from n s ≡ value (appended n s)
unfolding digits_from appended
digits_from-IsDigits n [] h k = refl
digits_from-IsDigits n (c ∷ s) h k =
    ground (
      arith,
      le-appended (n * 10 + (c - b'0')) s,
      digits_from-IsDigits (n * 10 + (c - b'0')) s h.2 k,
    )

digit-IsDigit : (n : ℕ) → (b'0' ≤ b'0' + n % 10) × (b'0' + n % 10 ≤ b'9')
digit-IsDigit n = (omega arith, omega arith)

decimal_from-IsDigits : (fuel n : ℕ) (acc : Str) → IsDigits acc → IsDigits (decimal_from fuel n acc)
unfolding decimal_from
decimal_from-IsDigits zero n acc h = h
decimal_from-IsDigits (suc fuel) n acc h =
    let more : IsDigits ((b'0' + n % 10) ∷ acc) = ((digit-IsDigit n).0, (digit-IsDigit n).1, h) in
    if-both IsDigits (ltb n 10) more (decimal_from-IsDigits fuel (n / 10) _ more)

decimal_from-not_empty :
    (fuel n c : ℕ) (acc : Str) → is_empty (decimal_from fuel n (c ∷ acc)) ≡ false
unfolding decimal_from
decimal_from-not_empty zero n c acc = refl
decimal_from-not_empty (suc fuel) n c acc =
    if-both (λ (s : Str). is_empty s ≡ false) (ltb n 10) refl
      (decimal_from-not_empty fuel (n / 10) _ (c ∷ acc))

appended-decimal_from :
    (fuel n : ℕ) (acc : Str) → n < fuel → appended 0 (decimal_from fuel n acc) ≡ appended n acc
unfolding appended decimal_from
appended-decimal_from zero n acc h = absurd (omega arith)
appended-decimal_from (suc fuel) n acc h =
    if-both_when (λ s. appended 0 s ≡ appended n acc) (ltb n 10)
      (λ small. ap (λ m. appended m acc) (ground arith))
      (λ large.
        appended-decimal_from fuel (n / 10) _ (ground arith)
        ∙ ap (λ m. appended m acc) (omega arith))

parse_int-IsDigits :
    (s : Str)
    → IsDigits s
    → is_empty s ≡ false
    → appended 0 s < 2 ^ 63
    → parse_int s ≡ value (record { negative = false; magnitude = appended 0 s })
unfolding parse_int
parse_int-IsDigits [] h e k = cc
parse_int-IsDigits (c ∷ s) h e k =
    let low : (c == b'+') ≡ false = ground (arith, h.0) in
    let minus : (c == b'-') ≡ false = ground (arith, h.0) in
    rw low (rw minus (rw (digits_from-IsDigits 0 (c ∷ s) h k) (ground arith)))

-- A number that fits 64 bits is read back from its decimal form.
pub parse_int-decimal :
    (n : ℕ)
    → n < 2 ^ 63
    → parse_int (decimal n) ≡ value (record { negative = false; magnitude = n })
unfolding decimal decimal_from appended
parse_int-decimal n h =
    let back : appended 0 (decimal n) ≡ n = appended-decimal_from (suc n) n [] (omega arith) in
    parse_int-IsDigits (decimal n) (decimal_from-IsDigits (suc n) n [] tt)
      (if-both (λ (s : Str). is_empty s ≡ false) (ltb n 10) refl
        (decimal_from-not_empty n (n / 10) _ []))
      (subst (λ m. m < 2 ^ 63) (sym back) h)
    ∙ ap (λ m. value (record { negative = false; magnitude = m })) back
