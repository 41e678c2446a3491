-- ===== src/Pipeline/Chunked.antt =====
-- catalogChunk keeps all records in order and every chunk within the budget: run.go.
use network_adapter.Prelude.{
  ℕ, ◌+◌, ◌^◌, ◌<◌, ◌≤◌, ◌≡◌, refl, sym, ap, ◌∙◌, subst, ◌⊎◌, inl, inr, Bool, true, false, ◌&&◌,
  not, List, [], ◌∷◌, ◌++◌, flatten, append_assoc, append-nil, length, is_empty, All, arith,
  Bool-cases, ◌==◌,
}
use network_adapter.Pipeline.Fault.{
  Run, done, fail, Ensures, Ensures-bind, Ensures-done, Ensures-map,
}
use network_adapter.Pipeline.Value.{Engine, Record}
use network_adapter.Pipeline.Spec.{Chunk}
use network_adapter.Pipeline.Catalog.{catalog_cost, catalog_chunk, chunk_from, add_int, is_above}

module _ (engine : Engine) (spec : Chunk) where
  abbrev cost_in : Run ℕ → ℕ
  cost_in (done n) = n
  cost_in (fail f) = 0

  -- What a record costs.
  abbrev pub cost : Record → ℕ
  cost row = cost_in (catalog_cost engine spec.cost row)

  abbrev pub spent_by : List Record → ℕ
  spent_by [] = 0
  spent_by (row ∷ rows) = cost row + spent_by rows

  -- A chunk is within the budget, or is one record that is not.
  abbrev pub Fits : List Record → Type 0
  Fits chunk = (is_empty chunk ≡ false) × ((spent_by chunk ≤ spec.budget) ⊎ (length chunk ≡ 1))

  abbrev first_cost : List Record → ℕ
  first_cost [] = 0
  first_cost (row ∷ rows) = cost row

  -- No chunk ends before the next record would exceed the budget.
  abbrev pub IsGreedy : List (List Record) → Type 0
  IsGreedy [] = Unit
  IsGreedy (chunk ∷ []) = Unit
  IsGreedy (chunk ∷ next ∷ chunks) =
      (spec.budget < spent_by chunk + first_cost next) × IsGreedy (next ∷ chunks)

  pub record IsSplit (rows : List Record) (chunks : List (List Record)) : Type 0 where
    pub whole : flatten chunks ≡ rows
    pub fits : All Fits chunks
    pub greedy : IsGreedy chunks

  spent_by-append : (xs ys : List Record) → spent_by (xs ++ ys) ≡ spent_by xs + spent_by ys
  spent_by-append [] ys = omega arith
  spent_by-append (x ∷ xs) ys = omega (arith, spent_by-append xs ys)

  -- The run that is being filled.
  record IsFilling (current : List Record) (spent : ℕ) : Type 0 where
    exact : spent ≡ spent_by current
    fits : (spent_by current ≤ spec.budget) ⊎ (length current ≡ 1)
    small : spent < 2 ^ 62

  abbrev pub Small : Record → Type 0
  Small row = cost row < 2 ^ 62

  -- The first chunk begins with the run.
  abbrev Begins : List Record → List (List Record) → Type 0
  Begins current chunks =
      (more : List Record) × (rest : List (List Record)) × (chunks ≡ (current ++ more) ∷ rest)

  record IsFilled (current rows : List Record) (chunks : List (List Record)) : Type 0 where
    split : IsSplit (current ++ rows) chunks
    begins : Begins current chunks

  abbrev cut : List Record → ℕ → ℕ → Bool
  cut current spent c = not (is_empty current) && is_above (add_int spent c) spec.budget

  is_empty-append : (xs ys : List Record) → is_empty xs ≡ false → is_empty (xs ++ ys) ≡ false
  is_empty-append [] ys h = cc
  is_empty-append (x ∷ xs) ys h = refl

  -- A cut ends the run where the next record does not fit.
  cut-IsFilled :
      (current : List Record) (spent : ℕ) (row : Record) (rows : List Record)
      (more : List (List Record))
      → IsFilling current spent
      → is_empty current ≡ false
      → Small row
      → cut current spent (cost row) ≡ true
      → IsFilled (row ∷ []) rows more
      → IsFilled current (row ∷ rows) (current ∷ more)
  unfolding is_above add_int flatten
  cut-IsFilled current spent row rows more f ne small c d =
      let (ms, rest, e) = d.begins in
      let over : spec.budget < spent_by current + cost row = ground (arith, f.exact, f.small) in
      record {
        split = record {
          whole = ap (λ t. current ++ t) d.split.whole;
          fits = ((ne, f.fits), d.split.fits);
          greedy =
              subst (λ t. IsGreedy (current ∷ t)) (sym e) (over, subst IsGreedy e d.split.greedy);
        };
        begins = ([], more, ap (λ t. t ∷ more) (sym (append-nil current)));
      }

  -- Without a cut the record joins the run.
  joined-IsFilling :
      (current : List Record) (spent : ℕ) (row : Record)
      → IsFilling current spent
      → spec.budget < 2 ^ 62
      → Small row
      → is_empty current ≡ false
      → cut current spent (cost row) ≡ false
      → IsFilling (current ++ row ∷ []) (add_int spent (cost row))
  unfolding is_above add_int
  joined-IsFilling current spent row f b small ne c = record {
    exact = ground (arith, f.exact, spent_by-append current (row ∷ []));
    fits = inl (ground (arith, f.exact, f.small, spent_by-append current (row ∷ [])));
    small = ground (arith, f.exact);
  }

  single-IsFilling : (row : Record) → Small row → IsFilling (row ∷ []) (add_int 0 (cost row))
  unfolding add_int
  single-IsFilling row small = record { exact = omega arith; fits = inr refl; small = omega arith }

  last-IsFilled :
      (current : List Record) (spent : ℕ)
      → IsFilling current spent
      → is_empty current ≡ false
      → IsFilled current [] (current ∷ [])
  unfolding flatten
  last-IsFilled current spent f ne = record {
    split = record { whole = refl; fits = ((ne, f.fits), tt); greedy = tt };
    begins = ([], [], ap (λ t. t ∷ []) (sym (append-nil current)));
  }

  -- A record that joined the run was the first behind it.
  joined-IsFilled :
      (current : List Record) (row : Record) (rows : List Record) (chunks : List (List Record))
      → IsFilled (current ++ row ∷ []) rows chunks
      → IsFilled current (row ∷ rows) chunks
  joined-IsFilled current row rows chunks d =
      let (more, rest, e) = d.begins in
      let same : (current ++ row ∷ []) ++ rows ≡ current ++ row ∷ rows =
        append_assoc current (row ∷ []) rows in
      record {
        split = subst (λ t. IsSplit t chunks) same d.split;
        begins = (row ∷ more, rest, e ∙ ap (λ t. t ∷ rest) (append_assoc current (row ∷ []) more));
      }

  chunk_from-IsFilled :
      (rows current : List Record) (spent : ℕ)
      → IsFilling current spent
      → spec.budget < 2 ^ 62
      → All Small rows
      → is_empty current ≡ false
      → Ensures (IsFilled current rows) (chunk_from engine spec current spent rows)
  unfolding chunk_from
  chunk_from-IsFilled [] current spent f b small ne = rw ne (last-IsFilled current spent f ne)
  chunk_from-IsFilled (row ∷ rows) current spent f b small ne =
      Ensures-bind (IsFilled current (row ∷ rows)) (catalog_cost engine spec.cost row) _ λ c p.
        let at_cost : cost row ≡ c = ap cost_in p in
        elim (Bool-cases (cut current spent c)) [
          | inl cuts ↦ rw cuts (
              Ensures-bind (IsFilled current (row ∷ rows))
                (chunk_from engine spec (row ∷ []) (add_int 0 c) rows) _
                λ more r. cut-IsFilled current spent row rows more f ne small.0 (rw at_cost cuts) (
                  Ensures-done (IsFilled (row ∷ []) rows)
                    (chunk_from engine spec (row ∷ []) (add_int 0 c) rows)
                    (chunk_from-IsFilled rows (row ∷ []) (add_int 0 c)
                      (subst (λ n. IsFilling (row ∷ []) (add_int 0 n)) at_cost
                        (single-IsFilling row small.0))
                      b small.1 refl)
                    r))
          | inr joins ↦ rw joins (
              Ensures-map (IsFilled (current ++ row ∷ []) rows) (IsFilled current (row ∷ rows))
                (chunk_from engine spec (current ++ row ∷ []) (add_int spent c) rows)
                (joined-IsFilled current row rows)
                (chunk_from-IsFilled rows (current ++ row ∷ []) (add_int spent c)
                  (subst (λ n. IsFilling (current ++ row ∷ []) (add_int spent n)) at_cost
                    (joined-IsFilling current spent row f b small.0 ne (rw at_cost joins)))
                  b small.1 (is_empty-append current (row ∷ []) ne)))
        ]

  -- The first record always begins a run.
  started-IsSplit :
      (rows : List Record)
      → spec.budget < 2 ^ 62
      → All Small rows
      → Ensures (IsSplit rows) (chunk_from engine spec [] 0 rows)
  unfolding chunk_from flatten add_int
  started-IsSplit [] b small = record { whole = refl; fits = tt; greedy = tt }
  started-IsSplit (row ∷ rows) b small =
      Ensures-bind (IsSplit (row ∷ rows)) (catalog_cost engine spec.cost row) _ λ c p.
        let at_cost : cost row ≡ c = ap cost_in p in
        Ensures-map (IsFilled (row ∷ []) rows) (IsSplit (row ∷ rows))
          (chunk_from engine spec (row ∷ []) (add_int 0 c) rows) (λ chunks d. d.split)
          (chunk_from-IsFilled rows (row ∷ []) (add_int 0 c)
            (subst (λ n. IsFilling (row ∷ []) (add_int 0 n)) at_cost (single-IsFilling row small.0))
            b small.1 refl)

  -- When catalogChunk returns chunks under a budget other than 0 and below 2 ^ 62, and every
  -- record costs less than 2 ^ 62, the chunks are the records in their order, each chunk is not
  -- empty and costs at most the budget unless it is one record, and no chunk could take the first
  -- record of the next.
  pub catalog_chunk-IsSplit :
      (rows : List Record) (chunks : List (List Record))
      → (spec.budget == 0) ≡ false
      → spec.budget < 2 ^ 62
      → All Small rows
      → catalog_chunk engine spec rows ≡ done chunks
      → IsSplit rows chunks
  unfolding catalog_chunk
  catalog_chunk-IsSplit rows chunks on b small h =
      Ensures-done (IsSplit rows) (chunk_from engine spec [] 0 rows) (started-IsSplit rows b small)
        (rw on at h)
