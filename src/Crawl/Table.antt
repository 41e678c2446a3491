-- ===== src/Crawl/Table.antt =====
-- The SQL statements that the store is made of, over a table as the list of its rows.
use network_adapter.Prelude.{
  ℕ, ◌+◌, ◌≡◌, refl, Bool, true, false, List, [], ◌∷◌, ◌++◌, if◌then◌else◌, any, All, arith,
  Bool-cases, inl, inr, if-both_when,
}

module _ {ℓ} {A : Type ℓ} where
  -- UPDATE … SET f WHERE p
  unfoldable pub update_where : (A → Bool) → (A → A) → List A → List A
  update_where p f [] = []
  update_where p f (r ∷ rs) = (if p r then f r else r) ∷ update_where p f rs

  -- DELETE … WHERE p
  unfoldable pub delete_where : (A → Bool) → List A → List A
  delete_where p [] = []
  delete_where p (r ∷ rs) = if p r then delete_where p rs else r ∷ delete_where p rs

  -- The number of rows that a WHERE selects, as RowsAffected gives it.
  unfoldable pub count_where : (A → Bool) → List A → ℕ
  count_where p [] = 0
  count_where p (r ∷ rs) = (if p r then 1 else 0) + count_where p rs

  -- INSERT … ON CONFLICT DO UPDATE SET f, where p is the conflict.
  unfoldable pub upsert : (A → Bool) → A → (A → A) → List A → List A
  upsert p new f rs = if any p rs then update_where p f rs else rs ++ (new ∷ [])

module _ {ℓ κ μ} {A : Type ℓ} (P : A → Type κ) (Q : A → Type μ) where
  -- What the rows that are updated and the others come to satisfy.
  pub update_where-All :
      (p : A → Bool) (f : A → A) (rs : List A)
      → All P rs
      → ((r : A) → P r → p r ≡ true → Q (f r))
      → ((r : A) → P r → p r ≡ false → Q r)
      → All Q (update_where p f rs)
  unfolding update_where
  update_where-All p f [] h step keep = tt
  update_where-All p f (r ∷ rs) h step keep =
      (if-both_when Q (p r) (step r h.0) (keep r h.0), update_where-All p f rs h.1 step keep)

module _ {ℓ κ} {A : Type ℓ} (P : A → Type κ) where
  pub All-update_where :
      (p : A → Bool) (f : A → A) (rs : List A)
      → All P rs
      → ((r : A) → P r → p r ≡ true → P (f r))
      → All P (update_where p f rs)
  All-update_where p f rs h step = update_where-All P P p f rs h step (λ r k e. k)

  pub All-delete_where : (p : A → Bool) (rs : List A) → All P rs → All P (delete_where p rs)
  unfolding delete_where
  All-delete_where p [] h = tt
  All-delete_where p (r ∷ rs) h = elim (Bool-cases (p r)) [
    | inl e ↦ rw e (All-delete_where p rs h.1)
    | inr e ↦ rw e (h.0, All-delete_where p rs h.1)
  ]

module _ {ℓ} {A : Type ℓ} where
  pub update_where-none :
      (p : A → Bool) (f : A → A) (rs : List A) → any p rs ≡ false → update_where p f rs ≡ rs
  unfolding update_where
  update_where-none p f [] h = refl
  update_where-none p f (r ∷ rs) h = ground (arith, update_where-none p f rs)

  pub delete_where-none : (p : A → Bool) (rs : List A) → any p rs ≡ false → delete_where p rs ≡ rs
  unfolding delete_where
  delete_where-none p [] h = refl
  delete_where-none p (r ∷ rs) h = ground (arith, delete_where-none p rs)

  pub any-deleted : (p : A → Bool) (rs : List A) → any p (delete_where p rs) ≡ false
  unfolding delete_where
  any-deleted p [] = refl
  any-deleted p (r ∷ rs) = ground (arith, any-deleted p rs)

  pub any-update_where_to :
      (p q : A → Bool) (f : A → A) (rs : List A)
      → any p rs ≡ true
      → ((r : A) → p r ≡ true → q (f r) ≡ true)
      → any q (update_where p f rs) ≡ true
  unfolding update_where
  any-update_where_to p q f [] h k = cc
  any-update_where_to p q f (r ∷ rs) h k = ground (arith, k r, any-update_where_to p q f rs)
