-- ===== src/Pipeline/Named.antt =====
-- buildCatalogs gives every catalog a safe name of its own: run.go.
pub mod Fresh
use network_adapter.Prelude.{
  ℕ, suc, ◌++◌, ◌≡◌, refl, sym, ap, ◌∙◌, subst, inl, inr, Bool, true, false, ◌&&◌, not, Option,
  none, some, List, [], ◌∷◌, is_some, is_empty, length, any, All, All-append, arith, Bool-cases,
  Str, str_eq, str_eq_iff, lookup, insert, lookup-insert, lookup-insert_self, get_or,
}
use network_adapter.Text.{str, trim_space}
use network_adapter.Pipeline.Fault.{
  Run, done, fail, within, within-eq-done, only, Ensures, Ensures-bind, Ensures-if, Ensures-done,
  After, After-only, After-then, After-done, After-map,
}
use network_adapter.Pipeline.Value.{Engine, Record, Counters}
use network_adapter.Pipeline.Context.{RunContext}
use network_adapter.Pipeline.Spec.{Catalog, BuiltCatalog}
use network_adapter.Pipeline.Render.{
  is_slug, safe_slug, catalog_slug, catalog_render, render_under, inner_scope, slug_at,
  slug_document,
}
use network_adapter.Pipeline.Expand.{replace_all}
use network_adapter.Pipeline.Catalog.{catalog_chunk, select, catalog_group}
use network_adapter.Pipeline.Build.{
  Tally, fold_slug, build_chunk, build_chunks, build_rows, build_group, build_groups,
  build_catalogs, free_slug, reading_order, no_counters, split_order, select_rows, group_error,
  group_scope, tally_select, check_catalog, may_split,
}
use network_adapter.Pipeline.Named.Fresh.{
  distinct, folded, Safe, Names, Names-nil, Names-append, fresh-distinct,
}

abbrev IsSlug : Str → Type 0
IsSlug s = is_slug s ≡ true

module _ (engine : Engine) where
  safe_slug-is_slug :
      (slug source : Str) → Ensures (λ s. is_slug s ≡ true) (safe_slug engine slug source)
  unfolding safe_slug
  safe_slug-is_slug slug source = elim (Bool-cases (is_slug slug)) [
    | inl ok ↦ rw (Ensures, ok) ok
    | inr bad ↦ rw (Ensures, bad) tt
  ]

  catalog_slug-is_slug :
      (catalog : Catalog) (index : ℕ) (key : Str) (scope : RunContext)
      → Ensures (λ s. is_slug s ≡ true) (catalog_slug engine catalog index key scope)
  unfolding catalog_slug
  catalog_slug-is_slug catalog index key scope =
      Ensures-if IsSlug (is_empty catalog.chunk.slug) _ _
        (λ _. safe_slug-is_slug key (str "the group key"))
        λ _.
          Ensures-bind IsSlug
            (replace_all
              (λ inner. slug_at engine (slug_document catalog index key scope) (trim_space inner))
              catalog.chunk.slug)
            _
            λ out p.
              Ensures-if IsSlug (is_empty (trim_space out)) _ _ (λ _. tt)
                (λ _. safe_slug-is_slug out (str "chunk slug " ++ engine.quote catalog.chunk.slug))

  catalog_render-Safe :
      (base : Str) (catalog : Catalog) (chunk : List Record) (index : ℕ) (key : Str)
      (scope : RunContext)
      → Ensures Safe (catalog_render engine base catalog chunk index key scope)
  unfolding catalog_render
  catalog_render-Safe base catalog chunk index key scope =
      Ensures-bind Safe (catalog_slug engine catalog index key scope) _ λ slug p.
        let ok : is_slug slug ≡ true =
          Ensures-done IsSlug (catalog_slug engine catalog index key scope)
            (catalog_slug-is_slug catalog index key scope) p in
        Ensures-bind Safe
          (render_under engine base catalog chunk slug (inner_scope engine slug index scope)) _
          λ out q. ok

module _ (engine : Engine) (base : Str) (catalog : Catalog) where
  abbrev Names1 : Tally → Tally → BuiltCatalog → Type 0
  Names1 t t' b = Names t t' (b ∷ [])

  free_slug-fresh :
      (key : Str) (index : ℕ) (b : BuiltCatalog) (o : Option Str) {u : Unit {0}}
      → free_slug engine base catalog key index b.slug o ≡ done u
      → (not (is_some o) && true) ≡ true
  free_slug-fresh key index b none q = refl
  free_slug-fresh key index b (some s) q = elim (Bool-cases (str_eq s b.slug)) [
    | inl same ↦ let f = rw same at q in cc
    | inr other ↦ let f = rw other at q in cc
  ]

  build_chunk-Names :
      (key : Str) (scope : RunContext) (index : ℕ) (chunk : List Record) (t : Tally)
      → After (Names1 t) (build_chunk engine base catalog key scope index chunk t)
  unfolding build_chunk
  build_chunk-Names key scope index chunk t =
      let r = reading_order engine base catalog chunk in
      After-only (Names1 t) t
        (within (group_error engine base catalog key)
          (catalog_render engine base catalog r index key scope))
        _
        λ b p.
          let ok : is_slug b.slug ≡ true =
            Ensures-done Safe (catalog_render engine base catalog r index key scope)
              (catalog_render-Safe engine base catalog r index key scope)
              (within-eq-done (group_error engine base catalog key)
                (catalog_render engine base catalog r index key scope) p) in
          After-only (Names1 t) t
            (free_slug engine base catalog key index b.slug (lookup (fold_slug b.slug) t.named)) _
            λ u q. record {
              after = refl;
              is_fresh = free_slug-fresh key index b (lookup (fold_slug b.slug) t.named) q;
              safe = (ok, tt);
            }

  build_chunks-Names :
      (key : Str) (scope : RunContext) (index : ℕ) (chunks : List (List Record)) (t : Tally)
      → After (Names t) (build_chunks engine base catalog key scope index chunks t)
  unfolding build_chunks
  build_chunks-Names key scope index [] t = Names-nil t t refl
  build_chunks-Names key scope index (chunk ∷ chunks) t =
      After-then (Names t) (Names1 t) (build_chunk engine base catalog key scope index chunk t) _
        (build_chunk-Names key scope index chunk t)
        λ t' b p.
          After-then (Names t) (Names t')
            (build_chunks engine base catalog key scope (suc index) chunks t')
            (λ more. only (done (b ∷ more))) (build_chunks-Names key scope (suc index) chunks t')
            (λ t'' bs q. Names-append t t' t'' (b ∷ []) bs p q)

  build_rows-Names :
      (key : Str) (scope : RunContext) (rows : List Record) (t : Tally)
      → After (Names t) (build_rows engine base catalog key scope rows t)
  unfolding build_rows
  build_rows-Names key scope [] t = Names-nil t _ refl
  build_rows-Names key scope (row ∷ rows) t =
      let sorted = split_order engine base catalog (row ∷ rows) in
      After-only (Names t) t
        (within (group_error engine base catalog key) (catalog_chunk engine catalog.chunk sorted)) _
        λ chunks p.
          After-only (Names t) t (may_split engine base catalog key scope chunks sorted) _
            λ u q. build_chunks-Names key scope 1 chunks t

  tally_select-named :
      (key : Str) (t : Tally) (s : Counters × Run (List Record))
      → After (λ t' rows. t'.named ≡ t.named) (tally_select engine base catalog key s t)
  tally_select-named key t (c, done rows) = refl
  tally_select-named key t (c, fail f) = tt

  build_group-Names :
      (rc : RunContext) (key : Str) (members : List Record) (t : Tally)
      → After (Names t) (build_group engine base catalog rc key members t)
  unfolding build_group select_rows
  build_group-Names rc key members t =
      let scope = group_scope engine base catalog rc key members in
      After-then (Names t) (λ t' rows. t'.named ≡ t.named)
        (select_rows engine base catalog key scope members t)
        (build_rows engine base catalog key scope)
        (tally_select-named key t (select engine catalog scope members t.counters))
        λ t' rows e.
          After-map (Names t') (Names t) (build_rows engine base catalog key scope rows t')
            (λ t'' bs p. Names-append t t' t'' [] bs (Names-nil t t' e) p)
            (build_rows-Names key scope rows t')

  build_groups-Names :
      (rc : RunContext) (groups : List (Str × List Record)) (keys : List Str) (t : Tally)
      → After (Names t) (build_groups engine base catalog rc groups keys t)
  unfolding build_groups
  build_groups-Names rc groups [] t = Names-nil t t refl
  build_groups-Names rc groups (key ∷ keys) t =
      let members = get_or (lookup key groups) [] in
      After-then (Names t) (Names t) (build_group engine base catalog rc key members t) _
        (build_group-Names rc key members t)
        λ t' bs p.
          After-then (Names t) (Names t') (build_groups engine base catalog rc groups keys t')
            (λ more. only (done (bs ++ more))) (build_groups-Names rc groups keys t')
            (λ t'' more q. Names-append t t' t'' bs more p q)

  -- Each catalog that buildCatalogs returns has a slug of the safe form, and no two of their slugs
  -- are equal without regard to case.
  pub build_catalogs-distinct :
      (rc : RunContext) (rows : List Record) (t : Tally) (built : List BuiltCatalog)
      → build_catalogs engine base catalog rc rows ≡ (t, done built)
      → All Safe built × (distinct (folded built) ≡ true)
  unfolding build_catalogs
  build_catalogs-distinct rc rows t built h =
      let start = no_counters engine base catalog in
      After-done (λ t' bs. All Safe bs × (distinct (folded bs) ≡ true))
        (build_catalogs engine base catalog rc rows)
        (After-only (λ t' bs. All Safe bs × (distinct (folded bs) ≡ true)) start
          (check_catalog engine base catalog) _
          λ u p.
            After-only (λ t' bs. All Safe bs × (distinct (folded bs) ≡ true)) start
              (catalog_group engine catalog.group_by rows) _
              λ g q.
                let next = record start { counters = insert (str "groups") (length g.keys) [] } in
                After-map (Names next) (λ t' bs. All Safe bs × (distinct (folded bs) ≡ true))
                  (build_groups engine base catalog rc g.members g.keys next)
                  (λ t' bs n. (n.safe, fresh-distinct next.named bs n.is_fresh))
                  (build_groups-Names rc g.members g.keys next))
        h
