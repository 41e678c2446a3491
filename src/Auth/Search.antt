-- ===== src/Auth/Search.antt =====
-- Where the first occurrence of a marker in a composed header is, and texts without white space.
use network_adapter.Prelude.{
  ℕ, zero, suc, ◌+◌, ◌/◌, ◌%◌, ◌≡◌, refl, ◌≢◌, ◌⊎◌, inl, inr, none, [], ◌∷◌, ◌++◌, reverse, arith,
  Str, All-append, ltb, false, true, reverse-reverse,
}
use mathlib.Core.List.{reverse-cons}
use network_adapter.Text.{
  strip_prefix, after_first, trim_left, trim_space, NoSpace, Without, is_space, decimal,
  decimal_from,
}

-- The marker holds the code point.
abbrev pub Holds : ℕ → Str → Type 0
Holds q [] = ⊥
Holds q (c ∷ s) = (c ≡ q) ⊎ Holds q s

strip_prefix-none :
    (q b : ℕ) (m w s : Str)
    → Holds q m
    → Without b m
    → Without q w
    → strip_prefix m (w ++ b ∷ s) ≡ none
unfolding strip_prefix
strip_prefix-none q b [] w s held h k = absurd held
strip_prefix-none q b (c ∷ m) [] s held h k = ground arith
strip_prefix-none q b (c ∷ m) (d ∷ w) s (inl p) h k = ground arith
strip_prefix-none q b (c ∷ m) (d ∷ w) s (inr later) h k =
    ground (arith, strip_prefix-none q b m w s later h.1 k.1)

-- A part that ends at a code point outside the marker, and holds none of those of the marker's
-- that it would need, is passed over.
pub after_first_past :
    (q b : ℕ) (m w s : Str)
    → Holds q m
    → Without b m
    → Without q w
    → after_first m (w ++ b ∷ s) ≡ after_first m s
unfolding after_first
after_first_past q b m [] s held h k = rw (strip_prefix-none q b m [] s held h k, after_first)
after_first_past q b m (d ∷ w) s held h k =
    rw (strip_prefix-none q b m (d ∷ w) s held h k, after_first)
      (after_first_past q b m w s held h k.1)

-- A part without the marker's first code point is passed over.
pub after_first_skip :
    (c : ℕ) (m w s : Str) → Without c w → after_first (c ∷ m) (w ++ s) ≡ after_first (c ∷ m) s
unfolding after_first
after_first_skip c m [] s h = refl
after_first_skip c m (d ∷ w) s h = ground (arith, after_first_skip c m w s h.1)

-- A text that lies outside the decimal digits misses every decimal number.
decimal_from-Without :
    (b fuel n : ℕ) (acc : Str)
    → ltb b b'0' ≡ true
    → Without b acc
    → Without b (decimal_from fuel n acc)
unfolding decimal_from
decimal_from-Without b zero n acc h k = k
decimal_from-Without b (suc fuel) n acc h k =
    let fresh : (b'0' + n % 10) ≢ b = λ e. absurd (ground arith) in
    ground (arith, fresh, decimal_from-Without b fuel (n / 10) ((b'0' + n % 10) ∷ acc) h (fresh, k))

pub decimal-Without : (b n : ℕ) → ltb b b'0' ≡ true → Without b (decimal n)
unfolding decimal
decimal-Without b n h = decimal_from-Without b (suc n) n [] h tt

decimal_from-Without_above :
    (b fuel n : ℕ) (acc : Str)
    → ltb b'9' b ≡ true
    → Without b acc
    → Without b (decimal_from fuel n acc)
unfolding decimal_from
decimal_from-Without_above b zero n acc h k = k
decimal_from-Without_above b (suc fuel) n acc h k =
    let fresh : (b'0' + n % 10) ≢ b = λ e. absurd (ground arith) in
    ground (
      arith,
      fresh,
      decimal_from-Without_above b fuel (n / 10) ((b'0' + n % 10) ∷ acc) h (fresh, k),
    )

pub decimal-Without_above : (b n : ℕ) → ltb b'9' b ≡ true → Without b (decimal n)
unfolding decimal
decimal-Without_above b n h = decimal_from-Without_above b (suc n) n [] h tt

trim_left_of_NoSpace : (s : Str) → NoSpace s → trim_left s ≡ s
unfolding trim_left
trim_left_of_NoSpace [] h = refl
trim_left_of_NoSpace (c ∷ s) h = rw h.0

NoSpace-reverse : (s : Str) → NoSpace s → NoSpace (reverse s)
NoSpace-reverse [] h = tt
NoSpace-reverse (c ∷ s) h =
    rw (reverse-cons c s)
      (All-append (λ c. is_space c ≡ false) (reverse s) (c ∷ []) (NoSpace-reverse s h.1) (h.0, tt))

pub trim_space_of_NoSpace : (s : Str) → NoSpace s → trim_space s ≡ s
unfolding trim_space
trim_space_of_NoSpace s h =
    rw (trim_left_of_NoSpace s h)
      (rw (trim_left_of_NoSpace (reverse s) (NoSpace-reverse s h)) (reverse-reverse s))
