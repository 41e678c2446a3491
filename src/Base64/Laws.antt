-- ===== src/Base64/Laws.antt =====
-- Decoding base64 undoes encoding, and no encoding needs quoting: encoding/base64.
use network_adapter.Prelude.{
  ℕ, suc, ◌+◌, ◌*◌, ◌/◌, ◌%◌, ◌<◌, ◌≡◌, refl, ap, ◌∙◌, ◌≢◌, true, false, is_empty, some, [], ◌∷◌,
  arith, ltb, Str,
}
use network_adapter.Text.{Without}
use network_adapter.Result.{Res, ok, err, ◌>>=◌}
use network_adapter.Base64.{
  letter, letter_value, encode, Quantum, no_letter, one_letter, two_letters, three_letters,
  with_letter, completed, decode_from, decode, IsBytes, skip_newlines,
}

letter_value-letter : (v : ℕ) → v < 64 → letter_value (letter v) ≡ some v
unfolding letter letter_value
letter_value-letter v h = ground arith

>>=-ok : (r : Res Str) → (r >>= λ bytes. ok bytes) ≡ r
>>=-ok (err e) = refl
>>=-ok (ok x) = refl

decode_from-letter :
    (si : ℕ) (s : Str) (q : Quantum) (v : ℕ)
    → v < 64
    → decode_from si q (letter v ∷ s)
      ≡ (decode_from (suc si) (with_letter q v) s >>= λ bytes. ok (completed q v bytes))
unfolding decode_from
decode_from-letter si s q v h = rw (letter_value-letter v h)

module _ (si p q : ℕ) (hp : p < 64) (hq : q < 64) (s : Str) where
  decode_from-two_letters :
      decode_from si no_letter (letter p ∷ letter q ∷ s)
      ≡ decode_from (suc (suc si)) (two_letters p q) s
  decode_from-two_letters =
      decode_from-letter si _ no_letter p hp
      ∙ (>>=-ok _ ∙ (decode_from-letter (suc si) s (one_letter p) q hq ∙ >>=-ok _))

module _ (si p q r : ℕ) (hp : p < 64) (hq : q < 64) (hr : r < 64) (s : Str) where
  decode_from-three_letters :
      decode_from si no_letter (letter p ∷ letter q ∷ letter r ∷ s)
      ≡ decode_from (suc (suc (suc si))) (three_letters p q r) s
  decode_from-three_letters =
      decode_from-two_letters si p q hp hq _
      ∙ (decode_from-letter (suc (suc si)) s (two_letters p q) r hr ∙ >>=-ok _)

list_eq_two : {a b c d : ℕ} {s : Str} → a ≡ c → b ≡ d → (a ∷ b ∷ s) ≡ (c ∷ d ∷ s)
list_eq_two p q = cc

list_eq_three :
    {a b c x y z : ℕ} {s : Str} → a ≡ x → b ≡ y → c ≡ z → (a ∷ b ∷ c ∷ s) ≡ (x ∷ y ∷ z ∷ s)
list_eq_three p q r = cc

-- The letters of three bytes give them back.
only_byte : (a : ℕ) → a < 256 → a / 4 * 4 + a % 4 * 16 / 16 ≡ a
only_byte a h = omega arith

last_byte : (a b : ℕ) → b < 256 → (a % 4 * 16 + b / 16) % 16 * 16 + b % 16 * 4 / 4 ≡ b
last_byte a b h = omega arith

first_byte : (a b : ℕ) → b < 256 → a / 4 * 4 + (a % 4 * 16 + b / 16) / 16 ≡ a
first_byte a b h = omega arith

second_byte :
    (a b c : ℕ)
    → b < 256
    → c < 256
    → (a % 4 * 16 + b / 16) % 16 * 16 + (b % 16 * 4 + c / 64) / 4 ≡ b
second_byte a b c hb hc = omega arith

third_byte : (b c : ℕ) → c < 256 → (b % 16 * 4 + c / 64) % 4 * 64 + c % 64 ≡ c
third_byte b c h = omega arith

decode_from-encode : (si : ℕ) (s : Str) → IsBytes s → decode_from si no_letter (encode s) ≡ ok s
unfolding encode decode_from skip_newlines letter_value
decode_from-encode si [] h = refl
decode_from-encode si (a ∷ []) h =
    decode_from-two_letters si (a / 4) (a % 4 * 16) (omega arith) (omega arith) (61 ∷ 61 ∷ [])
    ∙ ap (λ x. ok (x ∷ [])) (only_byte a h.0)
decode_from-encode si (a ∷ b ∷ []) h =
    decode_from-three_letters si (a / 4) (a % 4 * 16 + b / 16) (b % 16 * 4) (omega arith)
      (omega arith) (omega arith) (61 ∷ [])
    ∙ ap (λ w. ok w) (list_eq_two (first_byte a b h.1.0) (last_byte a b h.1.0))
decode_from-encode si (a ∷ b ∷ c ∷ s) h =
    let ha : a < 256 = h.0 in
    let hb : b < 256 = h.1.0 in
    let hc : c < 256 = h.1.1.0 in
    decode_from-three_letters si (a / 4) (a % 4 * 16 + b / 16) (b % 16 * 4 + c / 64) (omega arith)
      (omega arith) (omega arith) (letter (c % 64) ∷ encode s)
    ∙ (decode_from-letter (suc (suc (suc si))) (encode s)
          (three_letters (a / 4) (a % 4 * 16 + b / 16) (b % 16 * 4 + c / 64)) (c % 64) (omega arith)
        ∙ (ap
              (λ r. r >>= λ bytes. ok (
                completed (three_letters (a / 4) (a % 4 * 16 + b / 16) (b % 16 * 4 + c / 64))
                  (c % 64) bytes))
              (decode_from-encode (suc (suc (suc (suc si)))) s h.1.1.1)
            ∙ ap (λ w. ok w)
                (list_eq_three (first_byte a b hb) (second_byte a b c hb hc) (third_byte b c hc))))

pub decode-encode : (s : Str) → IsBytes s → decode (encode s) ≡ ok s
unfolding decode
decode-encode s h = decode_from-encode 0 s h

letter_ne : (b v : ℕ) → ltb b b'+' ≡ true → letter v ≢ b
unfolding letter
letter_ne b v h = λ e. absurd (ground arith)

letter_ne_comma : (v : ℕ) → letter v ≢ b','
unfolding letter
letter_ne_comma v = λ e. absurd (ground arith)

-- A code point that is no letter and not the padding does not occur in an encoding.
encode-Without : (b : ℕ) → ((v : ℕ) → letter v ≢ b) → b'=' ≢ b → (s : Str) → Without b (encode s)
unfolding encode
encode-Without b other p [] = tt
encode-Without b other p (x ∷ []) = (other (x / 4), (other (x % 4 * 16), (p, (p, tt))))
encode-Without b other p (x ∷ y ∷ []) =
    (other (x / 4), (other (x % 4 * 16 + y / 16), (other (y % 16 * 4), (p, tt))))
encode-Without b other p (x ∷ y ∷ z ∷ s) = (
  other (x / 4),
  (
    other (x % 4 * 16 + y / 16),
    (other (y % 16 * 4 + z / 64), (other (z % 64), encode-Without b other p s)),
  ),
)

pub encode-no_quote : (s : Str) → Without b'"' (encode s)
encode-no_quote s = encode-Without b'"' (λ v. letter_ne b'"' v refl) (omega arith) s

pub encode-no_comma : (s : Str) → Without b',' (encode s)
encode-no_comma s = encode-Without b',' letter_ne_comma (omega arith) s

pub encode-not_empty : (s : Str) → is_empty s ≡ false → is_empty (encode s) ≡ false
unfolding encode
encode-not_empty [] h = cc
encode-not_empty (x ∷ []) h = refl
encode-not_empty (x ∷ y ∷ []) h = refl
encode-not_empty (x ∷ y ∷ z ∷ s) h = refl
