-- ===== src/Pipeline/Fault.antt =====
-- The errors of a pipeline: a text, and what errors.Is and errors.As find in the chain.
use network_adapter.Prelude.{
  ◌≡◌, refl, ℕ, List, [], ◌∷◌, ◌++◌, flatten, Str, Bool, subst, true, false, if◌then◌else◌,
}

-- ErrNoUpstreamData, a ReauthError with its status, an error of the context, or any other error.
pub data Class : Type 0 where
  ordinary : Class
  no_data : Class
  reauth : ℕ → Class
  cancelled : Class

pub record Fault : Type 0 where
  pub class : Class
  pub text : Str

pub data Run {ℓ} (T : Type ℓ) : Type ℓ where
  done : T → Run T
  fail : Fault → Run T

-- fmt.Errorf without %w.
abbrev pub failed {ℓ} : {T : Type ℓ} → List Str → Run T
failed pieces = fail (record { class = Class.ordinary; text = flatten pieces })

-- fmt.Errorf("…%w", err): the chain keeps the error.
abbrev pub wrap : List Str → Fault → Fault
wrap pieces f = record f { text = flatten pieces ++ f.text }

abbrev pub within {ℓ} : {T : Type ℓ} → List Str → Run T → Run T
within pieces (done x) = done x
within pieces (fail f) = fail (wrap pieces f)

infixl 5 ◌>>=◌
abbrev pub ◌>>=◌ {ℓ κ} : {S : Type ℓ} {T : Type κ} → Run S → (S → Run T) → Run T
done x >>= next = next x
fail f >>= next = fail f

-- What changes a state and may fail; the changes before a failure stay.
abbrev pub Doing {ℓ κ} : Type ℓ → Type κ → Type (ℓ ⊔ κ)
Doing S T = S → S × Run T

abbrev pub and_then {ℓ κ μ} :
    {R : Type μ} {S : Type ℓ} {T : Type κ} → R × Run S → (S → Doing R T) → R × Run T
and_then (r, done x) next = next x r
and_then (r, fail f) next = (r, fail f)

infixl 5 ◌>>-◌
abbrev pub ◌>>-◌ {ℓ κ μ} :
    {R : Type μ} {S : Type ℓ} {T : Type κ} → Doing R S → (S → Doing R T) → Doing R T
◌>>-◌ m next r = and_then (m r) next

abbrev pub only {ℓ μ} : {R : Type μ} {T : Type ℓ} → Run T → Doing R T
only res r = (r, res)

-- A loop that calls `f` for each element and stops at the first error.
unfoldable pub each {ℓ κ} : {S : Type ℓ} {T : Type κ} → (S → Run T) → List S → Run (List T)
each f [] = done []
each f (x ∷ xs) = let rest = each f xs in f x >>= λ y. rest >>= λ ys. done (y ∷ ys)

module _ {ℓ κ} {S : Type ℓ} {T : Type κ} where
  pub >>=-eq-done :
      (r : Run S) (next : S → Run T) {y : T}
      → (r >>= next) ≡ done y
      → (x : S) × (r ≡ done x) × (next x ≡ done y)
  >>=-eq-done (fail f) next h = cc
  >>=-eq-done (done x) next h = (x, refl, h)

module _ {ℓ} {T : Type ℓ} where
  pub within-eq-done :
      (pieces : List Str) (r : Run T) {x : T} → within pieces r ≡ done x → r ≡ done x
  within-eq-done pieces (fail f) h = cc
  within-eq-done pieces (done x) h = h

  pub done-injective : {x y : T} → done x ≡ done y → x ≡ y
  done-injective h = cc

-- A result, if there is one, has the property.
abbrev pub Ensures {ℓ κ} : {T : Type ℓ} → (T → Type κ) → Run T → Type κ
Ensures P (done x) = P x
Ensures P (fail f) = Unit

module _ {ℓ κ μ} {S : Type ℓ} {T : Type κ} (P : T → Type μ) where
  pub Ensures-bind :
      (r : Run S) (next : S → Run T)
      → ((x : S) → r ≡ done x → Ensures P (next x))
      → Ensures P (r >>= next)
  Ensures-bind (done x) next h = h x refl
  Ensures-bind (fail f) next h = tt

module _ {ℓ κ} {T : Type ℓ} (P : T → Type κ) where
  pub Ensures-done : (r : Run T) {y : T} → Ensures P r → r ≡ done y → P y
  Ensures-done (done x) h e = subst P (done-injective e) h
  Ensures-done (fail f) h e = absurd (cc)

  pub Ensures-if :
      (b : Bool) (x y : Run T)
      → (b ≡ true → Ensures P x)
      → (b ≡ false → Ensures P y)
      → Ensures P (if b then x else y)
  Ensures-if true x y p q = p refl
  Ensures-if false x y p q = q refl

  -- A property that implies another.
  pub Ensures-map : (Q : T → Type κ) (r : Run T) → ((x : T) → P x → Q x) → Ensures P r → Ensures Q r
  Ensures-map Q (done x) f h = f x h
  Ensures-map Q (fail e) f h = tt

-- A property of the state and of the result, where there is a result.
abbrev pub After {ℓ κ μ} : {R : Type μ} {T : Type ℓ} → (R → T → Type κ) → R × Run T → Type κ
After P (r, done x) = P r x
After P (r, fail f) = Unit

module _ {ℓ κ μ ν} {R : Type μ} {S : Type ℓ} {T : Type κ} (P : R → T → Type ν) where
  pub After-only :
      (r : R) (res : Run S) (next : S → Doing R T)
      → ((x : S) → res ≡ done x → After P (next x r))
      → After P (and_then (r, res) next)
  After-only r (done x) next h = h x refl
  After-only r (fail f) next h = tt

  pub After-then :
      (Q : R → S → Type ν) (s : R × Run S) (next : S → Doing R T)
      → After Q s
      → ((r : R) (x : S) → Q r x → After P (next x r))
      → After P (and_then s next)
  After-then Q (r, done x) next q h = h r x q
  After-then Q (r, fail f) next q h = tt

module _ {ℓ κ μ} {R : Type μ} {T : Type ℓ} (P : R → T → Type κ) where
  pub After-done : {r : R} {x : T} (s : R × Run T) → After P s → s ≡ (r, done x) → P r x
  After-done s h e = subst (After P) e h

  pub After-map :
      (Q : R → T → Type κ) (s : R × Run T)
      → ((r : R) (x : T) → P r x → Q r x)
      → After P s
      → After Q s
  After-map Q (r, done x) f h = f r x h
  After-map Q (r, fail e) f h = tt
