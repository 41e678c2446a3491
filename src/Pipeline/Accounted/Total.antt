-- ===== src/Pipeline/Accounted/Total.antt =====
-- The groups of catalogGroup hold as many records as there are: run.go.
use network_adapter.Prelude.{
  ℕ, suc, ◌+◌, ◌≡◌, refl, sym, ◌∙◌, subst, inl, inr, some, List, [], ◌∷◌, ◌++◌, length, get_or, All,
  arith, if◌then◌else◌, Option-cases, Str, str_eq_iff, str_eq_refl, lookup, append_assoc,
}
use network_adapter.Json.{Json}
use network_adapter.Pipeline.Fault.{done, Ensures, Ensures-bind, Ensures-done, Ensures-map}
use network_adapter.Pipeline.Value.{Engine, Record, render_scalar}
use network_adapter.Pipeline.Catalog.{Groups, catalog_group, group_from, add_member}
use network_adapter.Pipeline.Grouped.{
  count_of, with_key, has_key, once, Keyed, with_key-append, unless_empty, IsGrouped,
  catalog_group-IsGrouped,
}

abbrev pub sum_at : List (Str × List Record) → List Str → ℕ
sum_at groups [] = 0
sum_at groups (key ∷ keys) = length (get_or (lookup key groups) []) + sum_at groups keys

module _ (engine : Engine) (by : Str) where
  -- How many keys of a list a record has.
  abbrev hits : Record → List Str → ℕ
  hits row [] = 0
  hits row (key ∷ keys) = (if has_key engine by key (lookup by row) then 1 else 0) + hits row keys

  abbrev sum_with : List Record → List Str → ℕ
  sum_with rows [] = 0
  sum_with rows (key ∷ keys) = length (with_key engine by key rows) + sum_with rows keys

  sum_with-cons :
      (row : Record) (rows : List Record) (keys : List Str)
      → sum_with (row ∷ rows) keys ≡ hits row keys + sum_with rows keys
  sum_with-cons row rows [] = omega arith
  sum_with-cons row rows (key ∷ keys) = ground (arith, sum_with-cons row rows keys)

  sum_with-nil : (keys : List Str) → sum_with [] keys ≡ 0
  sum_with-nil [] = refl
  sum_with-nil (key ∷ keys) = omega (arith, sum_with-nil keys)

  sum_with-length :
      (rows : List Record) (keys : List Str)
      → All (λ row. hits row keys ≡ 1) rows
      → sum_with rows keys ≡ length rows
  sum_with-length [] keys h = sum_with-nil keys
  sum_with-length (row ∷ rows) keys h =
      omega (arith, sum_with-cons row rows keys, h.0, sum_with-length rows keys h.1)

  hits-count_of :
      (row : Record) (v : Json) (keys : List Str)
      → lookup by row ≡ some v
      → hits row keys ≡ count_of (render_scalar engine v) keys
  hits-count_of row v [] h = refl
  hits-count_of row v (key ∷ keys) h = rw h (
      ground (
        arith,
        str_eq_iff key (render_scalar engine v),
        str_eq_iff (render_scalar engine v) key,
        hits-count_of row v keys h,
      ))

  once-middle : (row : Record) (xs ys : List Record) → once engine by (xs ++ row ∷ ys) ≡ 1
  once-middle row [] ys = refl
  once-middle row (x ∷ xs) ys = refl

  hits-All :
      (before rows : List Record) (keys : List Str)
      → All (Keyed engine by) rows
      → ((key : Str) → count_of key keys ≡ once engine by (with_key engine by key (before ++ rows)))
      → All (λ row. hits row keys ≡ 1) rows
  hits-All before [] keys h c = tt
  hits-All before (row ∷ rows) keys h c =
      let (v, e) = h.0 in
      let k = render_scalar engine v in
      let found : once engine by (with_key engine by k (before ++ row ∷ rows)) ≡ 1 =
        rw (with_key-append engine by k before (row ∷ rows), e, str_eq_refl k)
          (once-middle row (with_key engine by k before) (with_key engine by k rows)) in
      (
        hits-count_of row v keys e ∙ c k ∙ found,
        hits-All (before ++ row ∷ []) rows keys h.1 (λ key.
            subst (λ t. count_of key keys ≡ once engine by (with_key engine by key t))
              (sym (append_assoc before (row ∷ []) rows)) (c key)),
      )

  group_from-Keyed :
      (rows : List Record) (i : ℕ) (g : Groups)
      → Ensures (λ g'. All (Keyed engine by) rows) (group_from engine i by g rows)
  unfolding group_from
  group_from-Keyed [] i g = tt
  group_from-Keyed (row ∷ rows) i g = elim (Option-cases (lookup by row)) [
    | inl missing ↦ rw (Ensures, missing) tt
    | inr (v, found) ↦
        rw (Ensures, found)
          (Ensures-map (λ g'. All (Keyed engine by) rows) (λ g'. All (Keyed engine by) (row ∷ rows))
            (group_from engine (suc i) by (add_member engine (render_scalar engine v) row g) rows)
            (λ g' a. ((v, found), a))
            (group_from-Keyed rows (suc i) (add_member engine (render_scalar engine v) row g)))
  ]

  catalog_group-Keyed :
      (rows : List Record) (g : Groups)
      → catalog_group engine by rows ≡ done g
      → All (Keyed engine by) rows
  unfolding catalog_group
  catalog_group-Keyed rows g h =
      let start : Groups = record { keys = []; members = [] } in
      Ensures-done (λ g'. All (Keyed engine by) rows) (catalog_group engine by rows)
        (Ensures-bind (λ g'. All (Keyed engine by) rows) (group_from engine 0 by start rows) _
          λ g' p.
            Ensures-done (λ g'. All (Keyed engine by) rows) (group_from engine 0 by start rows)
              (group_from-Keyed rows 0 start) p)
        h

  length-unless_empty :
      (rows : List Record) → length (get_or (unless_empty engine by rows) []) ≡ length rows
  length-unless_empty [] = refl
  length-unless_empty (row ∷ rows) = refl

  sum_at-with :
      (rows : List Record) (g : Groups) (keys : List Str)
      → IsGrouped engine by rows g
      → sum_at g.members keys ≡ sum_with rows keys
  sum_at-with rows g [] d = refl
  sum_at-with rows g (key ∷ keys) d =
      rw (d.members key) (
        omega (arith, length-unless_empty (with_key engine by key rows), sum_at-with rows g keys d))

  -- The groups hold all the records.
  pub catalog_group-total :
      (rows : List Record) (g : Groups)
      → catalog_group engine by rows ≡ done g
      → sum_at g.members g.keys ≡ length rows
  catalog_group-total rows g h =
      let d = catalog_group-IsGrouped engine by rows g h in
      sum_at-with rows g g.keys d
      ∙ sum_with-length rows g.keys (hits-All [] rows g.keys (catalog_group-Keyed rows g h) d.keys)
