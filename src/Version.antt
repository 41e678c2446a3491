-- ===== src/Version.antt =====
-- The protocol version tests of pkg/model/model.go and router.go.
use network_adapter.Prelude.{
  ℕ, ◌≡◌, refl, Bool, true, false, ◌&&◌, not, Option, none, some, List, [], ◌∷◌, arith, leb, Str,
  subst,
}
use network_adapter.Text.{str, split, atoi, GoInt, has_prefix}

abbrev head : List Str → Str
head [] = []
head (w ∷ ws) = w

abbrev major_at_least_two : Option GoInt → Bool
major_at_least_two none = false
major_at_least_two (some n) = not n.negative && leb 2 n.magnitude

-- IsAtLeastV2; `strings.SplitN(version, ".", 2)[0]` is the first part of the split at each dot.
unfoldable pub is_at_least_v2 : Str → Bool
unfolding split atoi
is_at_least_v2 [] = false
is_at_least_v2 (c ∷ s) = major_at_least_two (atoi (head (split b'.' (c ∷ s))))

-- isV2Version of the router.
unfoldable pub is_v2_version : Str → Bool
unfolding has_prefix
is_v2_version version = has_prefix (str "2.") version

starts_two : (a b : ℕ) (s : Str) → is_v2_version (a ∷ b ∷ s) ≡ true → (b'2' ≡ a) × (b'.' ≡ b)
unfolding is_v2_version
starts_two a b s h = ground arith

-- A version that the router treats as v2 is v2 for signing and for the responses too.
pub is_at_least_v2_of_is_v2_version :
    (version : Str) → is_v2_version version ≡ true → is_at_least_v2 version ≡ true
unfolding is_v2_version is_at_least_v2
is_at_least_v2_of_is_v2_version [] h = h
is_at_least_v2_of_is_v2_version (a ∷ []) h = ground arith
is_at_least_v2_of_is_v2_version (a ∷ b ∷ s) h =
    let (p, q) = starts_two a b s h in
    subst (λ x. is_at_least_v2 (x ∷ b ∷ s) ≡ true) p
      (subst (λ y. is_at_least_v2 (b'2' ∷ y ∷ s) ≡ true) q refl)
