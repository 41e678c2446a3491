-- ===== src/Crawl/Unique.antt =====
-- Rows told apart by a key, as a UNIQUE constraint keeps them.
use network_adapter.Prelude.{
  ◌≡◌, refl, sym, ◌∙◌, ap, subst, Bool, true, false, ◌||◌, List, [], ◌∷◌, ◌++◌, ◌⊎◌, if◌then◌else◌,
  any, All, arith, Bool-cases, inl, inr, Str, str_eq, str_eq_iff,
}
use network_adapter.Crawl.Table.{update_where, delete_where, upsert}

module _ {A : Type 0} where
  -- Membership by recursion.
  unfoldable pub In : A → List A → Type 0
  In r [] = ⊥
  In r (x ∷ xs) = (x ≡ r) ⊎ In r xs

  pub All-In {κ} : (P : A → Type κ) (rs : List A) (r : A) → All P rs → In r rs → P r
  unfolding In
  All-In P [] r h i = absurd i
  All-In P (x ∷ xs) r h (inl e) = subst P e h.0
  All-In P (x ∷ xs) r h (inr i) = All-In P xs r h.1 i

  pub any-In : (p : A → Bool) (rs : List A) (r : A) → In r rs → p r ≡ true → any p rs ≡ true
  unfolding In
  any-In p [] r i e = absurd i
  any-In p (x ∷ xs) r (inl i) e = let q : p x ≡ true = ap p i ∙ e in ground arith
  any-In p (x ∷ xs) r (inr i) e = ground (arith, any-In p xs r i e)

  pub not_any-All {κ} :
      (P : A → Type κ) (p : A → Bool) (rs : List A)
      → any p rs ≡ false
      → ((x : A) → p x ≡ false → P x)
      → All P rs
  not_any-All P p [] h k = tt
  not_any-All P p (x ∷ xs) h k = (k x (ground arith), not_any-All P p xs (ground arith) k)

  pub All-both {κ μ} :
      (P : A → Type κ) (Q : A → Type μ) (rs : List A)
      → All P rs
      → All Q rs
      → All (λ x. P x × Q x) rs
  All-both P Q [] h k = tt
  All-both P Q (x ∷ xs) h k = ((h.0, k.0), All-both P Q xs h.1 k.1)

  pub All-map {κ μ} :
      (P : A → Type κ) (Q : A → Type μ) (rs : List A) → ((x : A) → P x → Q x) → All P rs → All Q rs
  All-map P Q [] f h = tt
  All-map P Q (x ∷ xs) f h = (f x h.0, All-map P Q xs f h.1)

  pub any-append_one :
      (p : A → Bool) (rs : List A) (x : A) → any p (rs ++ (x ∷ [])) ≡ (any p rs || p x)
  any-append_one p [] x = ground arith
  any-append_one p (r ∷ rs) x = ground (arith, any-append_one p rs x)

module _ {A : Type 0} (key : A → Str) where
  abbrev pub keyed : Str → A → Bool
  keyed k x = str_eq (key x) k

  unfoldable pub Unique : List A → Type 0
  Unique [] = Unit
  Unique (r ∷ rs) = (any (keyed (key r)) rs ≡ false) × Unique rs

  pub any-update_where :
      (k : Str) (p : A → Bool) (f : A → A) (rs : List A)
      → ((r : A) → key (f r) ≡ key r)
      → any (keyed k) (update_where p f rs) ≡ any (keyed k) rs
  unfolding update_where
  any-update_where k p f [] same = refl
  any-update_where k p f (r ∷ rs) same = ground (arith, any-update_where k p f rs same, same r)

  pub Unique-update_where :
      (p : A → Bool) (f : A → A) (rs : List A)
      → ((r : A) → key (f r) ≡ key r)
      → Unique rs
      → Unique (update_where p f rs)
  unfolding Unique update_where
  Unique-update_where p f [] same h = tt
  Unique-update_where p f (r ∷ rs) same h = (
    subst (λ k. any (keyed k) (update_where p f rs) ≡ false) (key_updated r)
        (any-update_where (key r) p f rs same ∙ h.0),
    Unique-update_where p f rs same h.1,
  )
    where
      key_updated : (r : A) → key r ≡ key (if p r then f r else r)
      key_updated r = ground (arith, same r)

  pub any-delete_where :
      (k : Str) (p : A → Bool) (rs : List A)
      → any (keyed k) rs ≡ false
      → any (keyed k) (delete_where p rs) ≡ false
  unfolding delete_where
  any-delete_where k p [] h = refl
  any-delete_where k p (r ∷ rs) h = ground (arith, any-delete_where k p rs)

  pub Unique-delete_where : (p : A → Bool) (rs : List A) → Unique rs → Unique (delete_where p rs)
  unfolding Unique delete_where
  Unique-delete_where p [] h = tt
  Unique-delete_where p (r ∷ rs) h = elim (Bool-cases (p r)) [
    | inl e ↦ rw e (Unique-delete_where p rs h.1)
    | inr e ↦ rw e (any-delete_where (key r) p rs h.0, Unique-delete_where p rs h.1)
  ]

  pub Unique-append_one :
      (rs : List A) (x : A) → Unique rs → any (keyed (key x)) rs ≡ false → Unique (rs ++ (x ∷ []))
  unfolding Unique
  Unique-append_one [] x h k = (refl, tt)
  Unique-append_one (r ∷ rs) x h k = (
    any-append_one (keyed (key r)) rs x
        ∙ ground (arith, str_eq_iff (key x) (key r), str_eq_iff (key r) (key x)),
    Unique-append_one rs x h.1 (ground arith),
  )

  pub Unique-upsert :
      (p : A → Bool) (x : A) (f : A → A) (rs : List A)
      → ((r : A) → key (f r) ≡ key r)
      → Unique rs
      → (any p rs ≡ false → any (keyed (key x)) rs ≡ false)
      → Unique (upsert p x f rs)
  unfolding upsert
  Unique-upsert p x f rs same h new = elim (Bool-cases (any p rs)) [
    | inl e ↦ rw e (Unique-update_where p f rs same h)
    | inr e ↦ rw e (Unique-append_one rs x h (new e))
  ]

  -- A row is the only one of its key.
  pub Unique-In :
      (rs : List A) (r : A) → Unique rs → In r rs → All (λ x. (keyed (key r) x ≡ true) → x ≡ r) rs
  unfolding Unique In
  Unique-In [] r h i = tt
  Unique-In (x ∷ xs) r h (inl i) = (
    λ e. i,
    not_any-All _ (keyed (key x)) xs h.0
        (λ y e k. absurd (different y e (subst (λ z. str_eq (key y) (key z) ≡ true) (sym i) k))),
  )
    where
      different : (y : A) → str_eq (key y) (key x) ≡ false → str_eq (key y) (key x) ≡ true → ⊥
      different y e k = cc
  Unique-In (x ∷ xs) r h (inr i) = (
    λ e. absurd (clash (any-In (keyed (key x)) xs r i (flip (key x) (key r) e))),
    Unique-In xs r h.1 i,
  )
    where
      flip : (a b : Str) → str_eq a b ≡ true → str_eq b a ≡ true
      flip a b e = ground (arith, str_eq_iff a b, str_eq_iff b a)

      clash : any (keyed (key x)) xs ≡ true → ⊥
      clash e = ground arith
