-- ===== src/Result.antt =====
-- A Go result: a value, or an error.
use network_adapter.Prelude.{◌≡◌, refl, ◌⊎◌, inl, inr}
use network_adapter.Errors.{GoErr}

pub data Res {ℓ} (T : Type ℓ) : Type ℓ where
  ok : T → Res T
  err : GoErr → Res T

-- `fmt.Errorf("…: %w", err)` around an error.
abbrev pub map_err {ℓ} : {T : Type ℓ} → (GoErr → GoErr) → Res T → Res T
map_err wrap (ok x) = ok x
map_err wrap (err e) = err (wrap e)

-- `if err != nil { return err }`, and what follows it.
infixl 5 ◌>>=◌
abbrev pub ◌>>=◌ {ℓ κ} : {S : Type ℓ} {T : Type κ} → Res S → (S → Res T) → Res T
err e >>= next = err e
ok x >>= next = next x

module _ {ℓ κ} {S : Type ℓ} {T : Type κ} where
  pub >>=-eq-ok :
      (r : Res S) (next : S → Res T) {y : T}
      → (r >>= next) ≡ ok y
      → (x : S) × (r ≡ ok x) × (next x ≡ ok y)
  >>=-eq-ok (err e) next done = cc
  >>=-eq-ok (ok x) next done = (x, refl, done)

module _ {ℓ} {T : Type ℓ} where
  pub map_err-eq-ok : (wrap : GoErr → GoErr) (r : Res T) {x : T} → map_err wrap r ≡ ok x → r ≡ ok x
  map_err-eq-ok wrap (err e) done = cc
  map_err-eq-ok wrap (ok x) done = done

  pub Res-cases : (r : Res T) → ((x : T) × (r ≡ ok x)) ⊎ ((e : GoErr) × (r ≡ err e))
  Res-cases (err e) = inr (e, refl)
  Res-cases (ok x) = inl (x, refl)

  pub ok-injective : {x y : T} → ok x ≡ ok y → x ≡ y
  ok-injective p = cc
