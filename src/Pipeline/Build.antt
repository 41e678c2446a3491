-- ===== src/Pipeline/Build.antt =====
-- buildCatalogs: run.go.
use network_adapter.Prelude.{
  ℕ, suc, ◌++◌, Bool, true, false, ◌&&◌, Option, none, some, List, [], ◌∷◌, map, not, if◌then◌else◌,
  is_empty, length, get_or, ltb, Str, str_eq, lookup, insert,
}
use network_adapter.Text.{str, decimal, lower_letter}
use network_adapter.Json.{object, string}
use network_adapter.Pipeline.Fault.{Run, done, failed, within, Doing, and_then, ◌>>=◌, ◌>>-◌, only}
use network_adapter.Pipeline.Value.{Engine, Record, Counters, count_by, to_members}
use network_adapter.Pipeline.Context.{RunContext, with_local, matches}
use network_adapter.Pipeline.Spec.{Catalog, BuiltCatalog}
use network_adapter.Pipeline.Order.{sort_records, sort_records_by}
use network_adapter.Pipeline.Catalog.{
  catalog_group, group_values, select, check_direction, catalog_chunk,
}
use network_adapter.Pipeline.Render.{check_render, catalog_render}

-- The counters, and the slugs so far under their lower-case form.
pub record Tally : Type 0 where
  pub counters : Counters
  pub named : List (Str × Str)

-- strings.ToLower of a slug, whose characters are those of slugShape.
unfoldable pub fold_slug : Str → Str
fold_slug slug = map lower_letter slug

module _ (engine : Engine) (base : Str) (catalog : Catalog) where
  abbrev pub group_error : Str → List Str
  group_error key = str "group " ∷ engine.quote key ∷ str ": " ∷ []

  abbrev pub collision : Str → ℕ → Str → Str → Run (Unit {0})
  collision key index slug previous =
      if str_eq previous slug
      then failed (
          str "group "
          ∷ engine.quote key
          ∷ str ": chunk "
          ∷ decimal index
          ∷ str " renders the slug "
          ∷ engine.quote slug
          ∷ str " again; catalog.chunk.slug must include the chunk index"
          ∷ [])
      else failed (
          str "group "
          ∷ engine.quote key
          ∷ str ": chunk "
          ∷ decimal index
          ∷ str " renders the slug "
          ∷ engine.quote slug
          ∷ str ", which collides with "
          ∷ engine.quote previous
          ∷ str " on a case-insensitive filesystem"
          ∷ [])

  abbrev pub free_slug : Str → ℕ → Str → Option Str → Run (Unit {0})
  free_slug key index slug none = done tt
  free_slug key index slug (some previous) = collision key index slug previous

  abbrev pub tallied : BuiltCatalog → ℕ → Tally → Tally
  tallied b size t = record {
    counters = count_by (str "published") size (count_by (str "catalogs") 1 t.counters);
    named = insert (fold_slug b.slug) b.slug t.named;
  }

  abbrev pub reading_order : List Record → List Record
  reading_order chunk =
      if is_empty catalog.order.render_by
      then chunk
      else sort_records_by engine catalog.order.render_by chunk

  -- One chunk, rendered under a slug that no other catalog has.
  unfoldable pub build_chunk : Str → RunContext → ℕ → List Record → Doing Tally BuiltCatalog
  unfolding sort_records_by catalog_render fold_slug lookup insert str_eq count_by decimal
  build_chunk key scope index chunk =
      only (
        within (group_error key)
          (catalog_render engine base catalog (reading_order chunk) index key scope))
      >>- λ b. λ t.
        and_then (t, free_slug key index b.slug (lookup (fold_slug b.slug) t.named))
          λ _. λ t'. (tallied b (length chunk) t', done b)

  unfoldable pub build_chunks :
      Str → RunContext → ℕ → List (List Record) → Doing Tally (List BuiltCatalog)
  unfolding build_chunk
  build_chunks key scope index [] = only (done [])
  build_chunks key scope index (chunk ∷ chunks) = build_chunk key scope index chunk >>- λ b.
      build_chunks key scope (suc index) chunks >>- λ more. only (done (b ∷ more))

  abbrev pub split_order : List Record → List Record
  split_order rows =
      if is_empty catalog.order.by
      then rows
      else sort_records engine catalog.order.by catalog.order.direction rows

  abbrev pub no_split : Str → List (List Record) → List Record → Bool → Run (Unit {0})
  no_split key chunks rows false = done tt
  no_split key chunks rows true = failed (
      str "group "
      ∷ engine.quote key
      ∷ str " needs "
      ∷ decimal (length chunks)
      ∷ str " catalogs ("
      ∷ decimal (length rows)
      ∷ str " records, budget "
      ∷ decimal catalog.chunk.budget
      ∷ str "); chunk.refuseSplitWhen forbids splitting it"
      ∷ [])

  abbrev first_or_empty : List Record → Record
  first_or_empty [] = []
  first_or_empty (row ∷ rows) = row

  -- chunk.refuseSplitWhen
  unfoldable pub may_split : Str → RunContext → List (List Record) → List Record → Run (Unit {0})
  unfolding matches decimal
  may_split key scope chunks rows =
      if ltb 1 (length chunks) && not (is_empty catalog.chunk.refuse_split_when)
      then within (str "group " ∷ engine.quote key ∷ str ": chunk.refuseSplitWhen: " ∷ [])
          (matches engine scope catalog.chunk.refuse_split_when (first_or_empty rows))
        >>= no_split key chunks rows
      else done tt

  -- The catalogs of the records of a group that are published.
  unfoldable pub build_rows : Str → RunContext → List Record → Doing Tally (List BuiltCatalog)
  unfolding sort_records catalog_chunk may_split build_chunks count_by
  build_rows key scope [] t =
      (record t { counters = count_by (str "excludedGroups") 1 t.counters }, done [])
  build_rows key scope (row ∷ rows) t =
      let sorted = split_order (row ∷ rows) in
      (only (within (group_error key) (catalog_chunk engine catalog.chunk sorted)) >>- λ chunks.
      only (may_split key scope chunks sorted) >>- λ _. build_chunks key scope 1 chunks)
        t

  abbrev pub group_scope : RunContext → Str → List Record → RunContext
  group_scope rc key members =
      with_local (str "group") (object (to_members (group_values [] members)))
        (with_local catalog.group_by (string key) rc)

  abbrev pub tally_select : Str → Counters × Run (List Record) → Tally → Tally × Run (List Record)
  tally_select key (counters, res) t =
      (record t { counters = counters }, within (group_error key) res)

  -- catalogSelect on the counters of the tally.
  unfoldable pub select_rows : Str → RunContext → List Record → Doing Tally (List Record)
  unfolding select
  select_rows key scope members t =
      tally_select key (select engine catalog scope members t.counters) t

  -- One round of the loop over the groups.
  unfoldable pub build_group : RunContext → Str → List Record → Doing Tally (List BuiltCatalog)
  unfolding with_local group_values select_rows build_rows to_members
  build_group rc key members =
      let scope = group_scope rc key members in
      select_rows key scope members >>- λ rows. build_rows key scope rows

  unfoldable pub build_groups :
      RunContext → List (Str × List Record) → List Str → Doing Tally (List BuiltCatalog)
  unfolding lookup build_group
  build_groups rc groups [] = only (done [])
  build_groups rc groups (key ∷ keys) =
      build_group rc key (get_or (lookup key groups) []) >>- λ built.
      build_groups rc groups keys >>- λ more. only (done (built ++ more))

  abbrev pub no_counters : Tally
  no_counters = record { counters = []; named = [] }

  abbrev pub check_catalog : Run (Unit {0})
  check_catalog =
      if is_empty catalog.group_by
      then failed (str "the catalog block names no groupBy field" ∷ [])
      else check_render catalog.render >>= λ _.
          if is_empty catalog.catalog_id
          then failed (
              str
                "the catalog block names no identity.catalogId: a catalog with no id cannot be published"
              ∷ [])
          else check_direction engine catalog.order.direction

  -- buildCatalogs
  unfoldable pub build_catalogs : RunContext → List Record → Tally × Run (List BuiltCatalog)
  unfolding check_render check_direction catalog_group build_groups insert
  build_catalogs rc rows =
      (only check_catalog >>- λ _. only (catalog_group engine catalog.group_by rows) >>- λ g. λ t.
          build_groups rc g.members g.keys
            (record t { counters = insert (str "groups") (length g.keys) t.counters }))
        no_counters
