-- ===== src/Pipeline/Accounted/Split.antt =====
-- Sorting and splitting keep the number of records: run.go.
use network_adapter.Prelude.{
  ℕ, suc, ◌+◌, ◌≡◌, refl, inl, inr, Bool, true, false, List, [], ◌∷◌, ◌++◌, length, length-append,
  arith, Bool-cases, reverse, reverse-append, ◌==◌, not, is_empty, ◌&&◌,
}
use network_adapter.Pipeline.Fault.{done, Ensures, Ensures-bind, Ensures-done, Ensures-map, ◌>>=◌}
use network_adapter.Pipeline.Value.{Engine, Record}
use network_adapter.Pipeline.Spec.{Chunk}
use network_adapter.Pipeline.Order.{insert_sorted, insert_all, sort_stable}
use network_adapter.Pipeline.Catalog.{catalog_cost, catalog_chunk, chunk_from, add_int, is_above}

module _ {A : Type 0} (less : A → A → Bool) where
  length-insert_sorted : (x : A) (ys : List A) → length (insert_sorted less x ys) ≡ suc (length ys)
  unfolding insert_sorted
  length-insert_sorted x [] = refl
  length-insert_sorted x (y ∷ ys) = ground (arith, length-insert_sorted x ys)

  length-insert_all : (xs ys : List A) → length (insert_all less xs ys) ≡ length xs + length ys
  unfolding insert_all
  length-insert_all [] ys = omega arith
  length-insert_all (x ∷ xs) ys =
      omega (arith, length-insert_all xs (insert_sorted less x ys), length-insert_sorted x ys)

  length-reverse : (xs : List A) → length (reverse xs) ≡ length xs
  length-reverse [] = refl
  length-reverse (x ∷ xs) =
      rw (reverse-append (x ∷ []) xs)
        (omega (arith, length-append (reverse xs) (x ∷ []), length-reverse xs))

  pub length-sort_stable : (xs : List A) → length (sort_stable less xs) ≡ length xs
  unfolding sort_stable
  length-sort_stable xs =
      omega (arith, length-reverse (insert_all less xs []), length-insert_all xs [])

abbrev pub total : List (List Record) → ℕ
total [] = 0
total (chunk ∷ chunks) = length chunk + total chunks

module _ (engine : Engine) (spec : Chunk) where
  abbrev pub Holds : ℕ → List (List Record) → Type 0
  Holds n chunks = total chunks ≡ n

  chunk_from-Holds :
      (rows current : List Record) (spent : ℕ)
      → Ensures (Holds (length current + length rows)) (chunk_from engine spec current spent rows)
  unfolding chunk_from
  chunk_from-Holds [] [] spent = refl
  chunk_from-Holds [] (x ∷ current) spent = omega arith
  chunk_from-Holds (row ∷ rows) current spent =
      Ensures-bind (Holds (length current + suc (length rows))) (catalog_cost engine spec.cost row)
        _
        λ c p.
          by_cut c (chunk_from-Holds rows (row ∷ []) (add_int 0 c))
            (chunk_from-Holds rows (current ++ row ∷ []) (add_int spent c))
            (not (is_empty current) && is_above (add_int spent c) spec.budget)
    where
      by_cut :
          (c : ℕ)
          → Ensures (Holds (1 + length rows)) (chunk_from engine spec (row ∷ []) (add_int 0 c) rows)
          → Ensures
              (Holds (length (current ++ row ∷ []) + length rows))
              (chunk_from engine spec (current ++ row ∷ []) (add_int spent c) rows)
          → (cuts : Bool)
          → Ensures (Holds (length current + suc (length rows))) (elim cuts [
            | true ↦ chunk_from engine spec (row ∷ []) (add_int 0 c) rows >>= λ more.
                done (current ∷ more)
            | false ↦ chunk_from engine spec (current ++ row ∷ []) (add_int spent c) rows
          ])
      by_cut c a b true =
          Ensures-bind (Holds (length current + suc (length rows)))
            (chunk_from engine spec (row ∷ []) (add_int 0 c) rows) _
            λ more r. omega (
              arith,
              Ensures-done (Holds (1 + length rows))
                  (chunk_from engine spec (row ∷ []) (add_int 0 c) rows) a r,
            )
      by_cut c a b false =
          Ensures-map (Holds (length (current ++ row ∷ []) + length rows))
            (Holds (length current + suc (length rows)))
            (chunk_from engine spec (current ++ row ∷ []) (add_int spent c) rows)
            (λ chunks q. omega (arith, q, length-append current (row ∷ []))) b

  pub catalog_chunk-Holds :
      (rows : List Record) → Ensures (Holds (length rows)) (catalog_chunk engine spec rows)
  unfolding catalog_chunk
  catalog_chunk-Holds rows = elim (Bool-cases (spec.budget == 0)) [
    | inl off ↦ rw (Ensures, off) (omega arith)
    | inr on ↦
        rw (Ensures, on)
          (Ensures-map (Holds (0 + length rows)) (Holds (length rows))
            (chunk_from engine spec [] 0 rows) (λ chunks q. omega (arith, q))
            (chunk_from-Holds rows [] 0))
  ]
