-- ===== src/Pipeline/Accounted.antt =====
-- Every record that buildCatalogs reads is published or excluded, and counted so: run.go.
mod Selected
mod Split
mod Total
use network_adapter.Prelude.{
  ℕ, suc, ◌+◌, ◌≡◌, refl, sym, ap, ◌∙◌, subst, inl, inr, Bool, true, false, Option, none, some,
  List, [], ◌∷◌, ◌++◌, length, length-append, flatten, get_or, All, arith, if◌then◌else◌,
  Bool-cases, Option-cases, Str, str_eq, str_eq_iff, str_eq_refl, lookup, insert, lookup-insert,
  reverse, reverse-append, ◌==◌, not, is_empty, ◌&&◌, if-both, append_assoc,
}
use network_adapter.Text.{str}
use network_adapter.Json.{Json}
use network_adapter.Pipeline.Fault.{
  Run, done, fail, Ensures, Ensures-bind, Ensures-done, Ensures-map, After, After-only, After-then,
  After-done, only, within, After-map, ◌>>=◌, Doing, within-eq-done,
}
use network_adapter.Pipeline.Value.{Engine, Record, Counters, count_by, counter, render_scalar}
use network_adapter.Pipeline.Context.{RunContext, interpolate}
use network_adapter.Pipeline.Spec.{Catalog, Chunk, BuiltCatalog, ExcludeRule, AnnotateRule}
use network_adapter.Pipeline.Order.{insert_sorted, insert_all, sort_stable, sort_records}
use network_adapter.Pipeline.Catalog.{
  Groups, catalog_group, excluded, annotated, select_row, select, catalog_cost, catalog_chunk,
  chunk_from, label_counted, excluded_by, annotate_match, kept_row, rule_name, record_scope,
  labelled, add_int, exclude_match, is_above, group_from, add_member,
}
use network_adapter.Pipeline.Render.{catalog_render}
use network_adapter.Pipeline.Build.{
  Tally, build_chunk, build_chunks, may_split, build_rows, select_rows, build_group, build_groups,
  build_catalogs, group_error, split_order, group_scope, reading_order, tally_select, free_slug,
  fold_slug, no_counters, check_catalog,
}
use network_adapter.Pipeline.Grouped.{
  count_of, with_key, has_key, once, Keyed, with_key-append, unless_empty, IsGrouped,
  catalog_group-IsGrouped,
}
use network_adapter.Pipeline.Accounted.Selected.{
  Accounts, Accounts-refl, Accounts-trans, Accounts-left, Accounts-right, Accounts-other,
  Accounts-published, Selects, select-Accounts,
}
use network_adapter.Pipeline.Accounted.Split.{length-sort_stable, total, Holds, catalog_chunk-Holds}
use network_adapter.Pipeline.Accounted.Total.{sum_at, catalog_group-total}

-- What the building of catalogs does to the counters of its tally.
abbrev Publishes : ℕ → Tally → Tally → Type 0
Publishes n t t' = Accounts 0 n t.counters t'.counters

-- So many records are excluded or published.
abbrev Handles : ℕ → Tally → Tally → Type 0
Handles n t t' =
    (left : ℕ) × (kept : ℕ) × Accounts left kept t.counters t'.counters × (left + kept ≡ n)

module _ (engine : Engine) (base : Str) (catalog : Catalog) where
  build_chunk-Accounts :
      (key : Str) (scope : RunContext) (index : ℕ) (chunk : List Record) (t : Tally)
      → After
          (λ t' b. Publishes (length chunk) t t')
          (build_chunk engine base catalog key scope index chunk t)
  unfolding build_chunk str_eq
  build_chunk-Accounts key scope index chunk t =
      After-only (λ t' b. Publishes (length chunk) t t') t
        (within (group_error engine base catalog key) (
          catalog_render engine base catalog (reading_order engine base catalog chunk) index key
            scope))
        _
        λ b p.
          After-only (λ t' b. Publishes (length chunk) t t') t
            (free_slug engine base catalog key index b.slug (lookup (fold_slug b.slug) t.named)) _
            λ u q.
              Accounts-left (length chunk) (Accounts-other (str "catalogs") 1 t.counters refl refl)
                (Accounts-published (length chunk) (count_by (str "catalogs") 1 t.counters))

  build_chunks-Accounts :
      (key : Str) (scope : RunContext) (index : ℕ) (chunks : List (List Record)) (t : Tally)
      → After
          (λ t' bs. Publishes (total chunks) t t')
          (build_chunks engine base catalog key scope index chunks t)
  unfolding build_chunks
  build_chunks-Accounts key scope index [] t = Accounts-refl t.counters
  build_chunks-Accounts key scope index (chunk ∷ chunks) t =
      After-then (λ t' bs. Publishes (length chunk + total chunks) t t')
        (λ t' b. Publishes (length chunk) t t')
        (build_chunk engine base catalog key scope index chunk t) _
        (build_chunk-Accounts key scope index chunk t)
        λ t' b p.
          After-then (λ t'' bs. Publishes (length chunk + total chunks) t t'')
            (λ t'' bs. Publishes (total chunks) t' t'')
            (build_chunks engine base catalog key scope (suc index) chunks t')
            (λ more. only (done (b ∷ more))) (build_chunks-Accounts key scope (suc index) chunks t')
            (λ t'' bs q. Accounts-trans p q)

  length-split_order :
      (rows : List Record) → length (split_order engine base catalog rows) ≡ length rows
  unfolding sort_records
  length-split_order rows = elim (Bool-cases (is_empty catalog.order.by)) [
    | inl off ↦ rw off refl
    | inr on ↦ rw on (length-sort_stable _ rows)
  ]

  build_rows-Accounts :
      (key : Str) (scope : RunContext) (rows : List Record) (t : Tally)
      → After
          (λ t' bs. Publishes (length rows) t t')
          (build_rows engine base catalog key scope rows t)
  unfolding build_rows str_eq
  build_rows-Accounts key scope [] t = Accounts-other (str "excludedGroups") 1 t.counters refl refl
  build_rows-Accounts key scope (row ∷ rows) t =
      let sorted = split_order engine base catalog (row ∷ rows) in
      After-only (λ t' bs. Publishes (suc (length rows)) t t') t
        (within (group_error engine base catalog key) (catalog_chunk engine catalog.chunk sorted)) _
        λ chunks p.
          After-only (λ t' bs. Publishes (suc (length rows)) t t') t
            (may_split engine base catalog key scope chunks sorted) _
            λ u q.
              subst
                (λ n.
                  After (λ t' bs. Publishes n t t')
                    (build_chunks engine base catalog key scope 1 chunks t))
                (Ensures-done (Holds engine catalog.chunk (length sorted))
                    (catalog_chunk engine catalog.chunk sorted)
                    (catalog_chunk-Holds engine catalog.chunk sorted)
                    (within-eq-done (group_error engine base catalog key)
                      (catalog_chunk engine catalog.chunk sorted) p)
                  ∙ length-split_order (row ∷ rows))
                (build_chunks-Accounts key scope 1 chunks t)

  tally_select-Accounts :
      (n : ℕ) (key : Str) (t : Tally) (s : Counters × Run (List Record))
      → After (Selects n t.counters) s
      → After
          (λ t' rows. Selects n t.counters t'.counters rows)
          (tally_select engine base catalog key s t)
  tally_select-Accounts n key t (c, done rows) h = h
  tally_select-Accounts n key t (c, fail f) h = tt

  build_group-Accounts :
      (rc : RunContext) (key : Str) (members : List Record) (t : Tally)
      → After
          (λ t' bs. Handles (length members) t t')
          (build_group engine base catalog rc key members t)
  unfolding build_group select_rows
  build_group-Accounts rc key members t =
      let scope = group_scope engine base catalog rc key members in
      After-then (λ t' bs. Handles (length members) t t')
        (λ t' rows. Selects (length members) t.counters t'.counters rows)
        (select_rows engine base catalog key scope members t)
        (build_rows engine base catalog key scope)
        (tally_select-Accounts (length members) key t
          (select engine catalog scope members t.counters)
          (select-Accounts engine catalog scope members t.counters))
        λ t' rows (left, a, p).
          After-map (λ t'' bs. Publishes (length rows) t' t'')
            (λ t'' bs. Handles (length members) t t'')
            (build_rows engine base catalog key scope rows t')
            (λ t'' bs b. (left, length rows, Accounts-right left (length rows) a b, p))
            (build_rows-Accounts key scope rows t')

  build_groups-Accounts :
      (rc : RunContext) (groups : List (Str × List Record)) (keys : List Str) (t : Tally)
      → After
          (λ t' bs. Handles (sum_at groups keys) t t')
          (build_groups engine base catalog rc groups keys t)
  unfolding build_groups
  build_groups-Accounts rc groups [] t = (0, 0, Accounts-refl t.counters, omega arith)
  build_groups-Accounts rc groups (key ∷ keys) t =
      let n = sum_at groups (key ∷ keys) in
      let members = get_or (lookup key groups) [] in
      After-then (λ t' bs. Handles n t t') (λ t' bs. Handles (length members) t t')
        (build_group engine base catalog rc key members t) _ (build_group-Accounts rc key members t)
        λ t' bs (l, k, a, p).
          After-then (λ t'' bs. Handles n t t'') (λ t'' bs. Handles (sum_at groups keys) t' t'')
            (build_groups engine base catalog rc groups keys t') (λ more. only (done (bs ++ more)))
            (build_groups-Accounts rc groups keys t')
            (λ t'' more (l', k', b, q). (l + l', k + k', Accounts-trans a b, omega (arith, p, q)))

module _ (engine : Engine) (base : Str) (catalog : Catalog) where
  abbrev AddsUp : List Record → Tally → List BuiltCatalog → Type 0
  AddsUp rows t bs =
      counter (str "published") t.counters + counter (str "excluded") t.counters ≡ length rows

  -- When buildCatalogs succeeds, each record is counted as published or as excluded: the two
  -- counters add up to the number of records.
  pub build_catalogs-counters :
      (rc : RunContext) (rows : List Record) (t : Tally) (built : List BuiltCatalog)
      → build_catalogs engine base catalog rc rows ≡ (t, done built)
      → counter (str "published") t.counters + counter (str "excluded") t.counters ≡ length rows
  unfolding build_catalogs counter insert lookup str_eq
  build_catalogs-counters rc rows t built h =
      let none_ = no_counters engine base catalog in
      After-done (AddsUp rows) (build_catalogs engine base catalog rc rows)
        (After-only (AddsUp rows) none_ (check_catalog engine base catalog) _ λ u p.
          After-only (AddsUp rows) none_ (catalog_group engine catalog.group_by rows) _ λ g q.
            let start = record none_ { counters = insert (str "groups") (length g.keys) [] } in
            After-map (λ t' bs. Handles (sum_at g.members g.keys) start t') (AddsUp rows)
              (build_groups engine base catalog rc g.members g.keys start)
              (λ t' bs (l, k, a, e).
                let p0 : counter (str "published") start.counters ≡ 0 = refl in
                let e0 : counter (str "excluded") start.counters ≡ 0 = refl in
                omega (
                  arith,
                  a.published_,
                  a.excluded_,
                  p0,
                  e0,
                  e,
                  catalog_group-total engine catalog.group_by rows g q,
                ))
              (build_groups-Accounts engine base catalog rc g.members g.keys start))
        h
