-- ===== src/Prelude/Dict.antt =====
-- A Go map as an association list: a key occurs once, and a write replaces its value in place.
use Prim.Native.Nat.{ℕ}
use mathlib.Core.Path.{◌≡◌, refl, subst}
use mathlib.Core.Logic.{◌↔◌, inl, inr}
use mathlib.Core.Bool.{Bool, true, false, ◌&&◌}
use mathlib.Core.Option.{Option, none, some}
use mathlib.Core.List.{List, [], ◌∷◌}
use native.Mathlib.Omega.{arith}
use network_adapter.Prelude.Tests.{◌==◌, if◌then◌else◌, Bool-cases}
use network_adapter.Prelude.Lists.{All}

-- A Go string, as the list of its code points.
abbrev pub Str : Type 0
Str = List ℕ

unfoldable pub str_eq : Str → Str → Bool
str_eq [] [] = true
str_eq (a ∷ s) (b ∷ t) = a == b && str_eq s t
str_eq _ _ = false

str_eq_sound : (s t : Str) → str_eq s t ≡ true → s ≡ t
unfolding str_eq
str_eq_sound [] [] h = refl
str_eq_sound (a ∷ s) (b ∷ t) h = ground (arith, str_eq_sound s t)
str_eq_sound [] (b ∷ t) h = cc
str_eq_sound (a ∷ s) [] h = cc

pub str_eq_refl : (s : Str) → str_eq s s ≡ true
unfolding str_eq
str_eq_refl [] = refl
str_eq_refl (a ∷ s) = ground (arith, str_eq_refl s)

pub str_eq_iff : (s t : Str) → (str_eq s t ≡ true) ↔ (s ≡ t)
str_eq_iff s t = (str_eq_sound s t, λ p. subst (λ u. str_eq s u ≡ true) p (str_eq_refl s))

module _ {ℓ} {V : Type ℓ} where
  unfoldable pub lookup : Str → List (Str × V) → Option V
  lookup k [] = none
  lookup k ((j, v) ∷ m) = if str_eq j k then some v else lookup k m

  unfoldable pub insert : Str → V → List (Str × V) → List (Str × V)
  insert k v [] = (k, v) ∷ []
  insert k v ((j, w) ∷ m) = if str_eq j k then (k, v) ∷ m else (j, w) ∷ insert k v m

  pub lookup-insert :
      (k j : Str) (v : V) (m : List (Str × V))
      → lookup j (insert k v m) ≡ (if str_eq k j then some v else lookup j m)
  unfolding lookup insert
  lookup-insert k j v [] = refl
  lookup-insert k j v ((i, w) ∷ m) =
      ground (arith, str_eq_iff k j, str_eq_iff i k, str_eq_iff i j, lookup-insert k j v m)

  pub lookup-insert_self : (k : Str) (v : V) (m : List (Str × V)) → lookup k (insert k v m) ≡ some v
  lookup-insert_self k v m = ground (arith, lookup-insert k k v m, str_eq_refl k)

module _ {ℓ κ} {V : Type ℓ} (P : V → Type κ) where
  pub All-insert :
      (k : Str) (v : V) (m : List (Str × V))
      → P v
      → All (λ b. P b.1) m
      → All (λ b. P b.1) (insert k v m)
  unfolding insert
  All-insert k v [] p h = (p, tt)
  All-insert k v ((j, w) ∷ m) p h = ground (arith, All-insert k v m p h.1)

  pub All-lookup :
      (k : Str) (m : List (Str × V)) {v : V} → All (λ b. P b.1) m → lookup k m ≡ some v → P v
  unfolding lookup
  All-lookup k [] h e = cc
  All-lookup k ((j, w) ∷ m) {v} h e = elim (Bool-cases (str_eq j k)) [
    | inl same ↦ let found : some w ≡ some v = rw same at e in let p : w ≡ v = cc in subst P p h.0
    | inr other ↦ All-lookup k m h.1 (rw other at e)
  ]
