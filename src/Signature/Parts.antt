-- ===== src/Signature/Parts.antt =====
-- The parts of a header, written and read back: parseAuthHeader of signvalidator.go.
use network_adapter.Prelude.{
  ℕ, ◌≡◌, refl, ◌≢◌, ap, ◌∙◌, sym, false, some, map, List, [], ◌∷◌, ◌++◌, reverse, append_assoc,
  reverse-reverse, reverse-append, arith, Str, All, All-append, insert,
}
use mathlib.Core.List.{reverse-cons}
use network_adapter.Text.{
  cut, trim_left_of, trim_of, str, trim_space, trim_left, is_space, split, split-join, join,
  NoSpace, Without,
}
use network_adapter.Auth.Search.{trim_space_of_NoSpace}
use network_adapter.Signature.Header.{with_part, with_parts}

pub cut-append : (sep : ℕ) (s t : Str) → Without sep s → cut sep (s ++ sep ∷ t) ≡ some (s, t)
unfolding cut
cut-append sep [] t h = ground arith
cut-append sep (c ∷ s) t h = ground (arith, cut-append sep s t h.1)

trim_left_of-Without : (b : ℕ) (s : Str) → Without b s → trim_left_of b s ≡ s
unfolding trim_left_of
trim_left_of-Without b [] h = refl
trim_left_of-Without b (c ∷ s) h = ground arith

Without-reverse : (b : ℕ) (s : Str) → Without b s → Without b (reverse s)
Without-reverse b [] h = tt
Without-reverse b (c ∷ s) h =
    rw (reverse-cons c s)
      (All-append (λ c. c ≢ b) (reverse s) (c ∷ []) (Without-reverse b s h.1) (h.0, tt))

trim_left_of_self : (b : ℕ) (s : Str) → trim_left_of b (b ∷ s) ≡ trim_left_of b s
unfolding trim_left_of
trim_left_of_self b s = ground arith

trim_left_of_other : (b c : ℕ) (s : Str) → c ≢ b → trim_left_of b (c ∷ s) ≡ c ∷ s
unfolding trim_left_of
trim_left_of_other b c s h = ground arith

-- The quotes around a text without quotes are trimmed.
trim_of-quoted : (b : ℕ) (s : Str) → Without b s → trim_of b (b ∷ (s ++ b ∷ [])) ≡ s
unfolding trim_of
trim_of-quoted b [] h =
    ap (λ t. reverse (trim_left_of b (reverse t)))
      (trim_left_of_self b (b ∷ []) ∙ (trim_left_of_self b [] ∙ trim_left_of-Without b [] tt))
    ∙ ap reverse (trim_left_of-Without b [] tt)
trim_of-quoted b (c ∷ s) h =
    ap (λ t. reverse (trim_left_of b (reverse t)))
      (trim_left_of_self b (c ∷ (s ++ b ∷ [])) ∙ trim_left_of_other b c (s ++ b ∷ []) h.0)
    ∙ (ap (λ t. reverse (trim_left_of b t)) (reverse-append (c ∷ s) (b ∷ []))
        ∙ (ap reverse (trim_left_of_self b (reverse (c ∷ s)))
            ∙ (ap reverse (trim_left_of-Without b (reverse (c ∷ s)) (Without-reverse b (c ∷ s) h))
                ∙ reverse-reverse (c ∷ s))))

-- A text that neither begins nor ends with white space is left alone.
trim_space_of_ends :
    (c d : ℕ) (s : Str)
    → is_space c ≡ false
    → is_space d ≡ false
    → trim_space (c ∷ (s ++ d ∷ [])) ≡ c ∷ (s ++ d ∷ [])
unfolding trim_space trim_left
trim_space_of_ends c d s hc hd = rw hc (
    rw (reverse-append (c ∷ s) (d ∷ [])) (
      rw hd (
        ap (λ t. reverse t) (sym (reverse-append (c ∷ s) (d ∷ [])))
        ∙ reverse-reverse (c ∷ (s ++ d ∷ [])))))

-- `name="value"`
abbrev pub part_text : Str → Str → Str
part_text name text = name ++ (b'=' ∷ b'"' ∷ (text ++ b'"' ∷ []))

with_part_lem :
    (m : List (Str × Str)) (part : Str) {trimmed key quoted : Str}
    → trim_space part ≡ trimmed
    → cut b'=' trimmed ≡ some (key, quoted)
    → with_part m part ≡ insert (trim_space key) (trim_of b'"' quoted) m
unfolding with_part
with_part_lem m part p q = rw (with_part, p) (rw q)

insert-eq : {j k v w : Str} (m : List (Str × Str)) → j ≡ k → v ≡ w → insert j v m ≡ insert k w m
insert-eq m p q = cc

trim_space-part_text :
    (c : ℕ) (name text : Str)
    → is_space c ≡ false
    → trim_space (part_text (c ∷ name) text) ≡ part_text (c ∷ name) text
unfolding is_space
trim_space-part_text c name text h =
    let split_end : part_text (c ∷ name) text ≡ c ∷ ((name ++ (b'=' ∷ b'"' ∷ text)) ++ b'"' ∷ []) =
      simp append_assoc in
    ap trim_space split_end
    ∙ (trim_space_of_ends c b'"' (name ++ (b'=' ∷ b'"' ∷ text)) h refl ∙ sym split_end)

with_part-part_text :
    (c : ℕ) (name text : Str) (m : List (Str × Str))
    → NoSpace (c ∷ name)
    → Without b'=' (c ∷ name)
    → Without b'"' text
    → with_part m (part_text (c ∷ name) text) ≡ insert (c ∷ name) text m
with_part-part_text c name text m hs he hq =
    with_part_lem m (part_text (c ∷ name) text) (trim_space-part_text c name text hs.0)
      (cut-append b'=' (c ∷ name) _ he)
    ∙ insert-eq m (trim_space_of_NoSpace (c ∷ name) hs) (trim_of-quoted b'"' text hq)

abbrev pub part_of : Str × Str → Str
part_of (name, text) = part_text name text

-- The entries that the parts write, one after the other.
abbrev pub inserted : List (Str × Str) → List (Str × Str) → List (Str × Str)
inserted m [] = m
inserted m ((name, text) ∷ fields) = inserted (insert name text m) fields

abbrev pub IsField : Str × Str → Type 0
IsField ([], text) = ⊥
IsField (c ∷ name, text) =
    NoSpace (c ∷ name)
    × Without b'=' (c ∷ name)
    × Without b',' (c ∷ name)
    × Without b'"' text
    × Without b',' text

with_parts-fields :
    (m fields : List (Str × Str))
    → All IsField fields
    → with_parts m (map part_of fields) ≡ inserted m fields
unfolding with_parts
with_parts-fields m [] h = refl
with_parts-fields m (([], text) ∷ fields) h = absurd h.0
with_parts-fields m ((c ∷ name, text) ∷ fields) h =
    ap (λ n. with_parts n (map part_of fields))
      (with_part-part_text c name text m h.0.0 h.0.1 h.0.3)
    ∙ with_parts-fields (insert (c ∷ name) text m) fields h.1

Without-part :
    (name text : Str) → Without b',' name → Without b',' text → Without b',' (part_text name text)
Without-part name text hn ht =
    let last : Without b',' (b'"' ∷ []) = omega arith in
    All-append (λ c. c ≢ b',') name _ hn
      (omega arith, (omega arith, All-append (λ c. c ≢ b',') text _ ht last))

fields-Without :
    (fields : List (Str × Str)) → All IsField fields → All (Without b',') (map part_of fields)
fields-Without [] h = tt
fields-Without (([], text) ∷ fields) h = absurd h.0
fields-Without ((c ∷ name, text) ∷ fields) h =
    (Without-part (c ∷ name) text h.0.2 h.0.4, fields-Without fields h.1)

pub read-fields :
    (f : Str × Str) (fields : List (Str × Str))
    → All IsField (f ∷ fields)
    → with_parts [] (split b',' (join (str ",") (map part_of (f ∷ fields))))
      ≡ inserted [] (f ∷ fields)
read-fields f fields h =
    ap (λ ps. with_parts [] ps)
      (split-join b',' (part_of f) (map part_of fields) (fields-Without (f ∷ fields) h))
    ∙ with_parts-fields [] (f ∷ fields) h
