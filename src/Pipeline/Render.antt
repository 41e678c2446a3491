-- ===== src/Pipeline/Render.antt =====
-- The name and the document of a chunk: run.go.
use network_adapter.Prelude.{
  ℕ, ◌++◌, Bool, ◌||◌, ◌&&◌, Option, none, some, List, [], ◌∷◌, not, if◌then◌else◌, is_empty, all,
  leb, ◌==◌, Str, lookup, insert,
}
use network_adapter.Text.{str, trim_space, decimal, join}
use network_adapter.Json.{Json, null, number, string, object, array, as_object}
use network_adapter.Pipeline.Fault.{Run, done, failed, within, each, ◌>>=◌}
use network_adapter.Pipeline.Value.{Engine, Record, render_scalar, to_members, of_records}
use network_adapter.Pipeline.Context.{RunContext, interpolate, with_local}
use network_adapter.Pipeline.Expand.{replace_all}
use network_adapter.Pipeline.Spec.{Catalog, Render, BuiltCatalog}
use network_adapter.Pipeline.Order.{sort_strings}
use network_adapter.Pipeline.Catalog.{record_scope, overlay}
use network_adapter.Pipeline.Primitives.{mapping_input, locals_of}

-- checkRender
unfoldable pub check_render : Render → Run (Unit {0})
check_render render =
    let by_field = not (is_empty render.mapping_by_field) || not (is_empty render.mappings) in
    if is_empty render.mapping && not by_field
    then failed (str "the catalog block names no render mapping" ∷ [])
    else if not (is_empty render.mapping) && by_field
    then failed
        (str "render names both `mapping` and `mappingByField`/`mappings`; use one form" ∷ [])
    else if by_field && (is_empty render.mapping_by_field || is_empty render.mappings)
    then failed (
        str
          "render.mappingByField and render.mappings go together: name the field and a mapping for each of its values"
        ∷ [])
    else done tt

-- A character that slugShape allows.
unfoldable pub is_slug_character : ℕ → Bool
is_slug_character c =
    (leb b'A' c && leb c b'Z')
    || ((leb b'a' c && leb c b'z')
        || ((leb b'0' c && leb c b'9') || (c == b'.' || (c == b'_' || c == b'-'))))

-- slugShape.MatchString
unfoldable pub is_slug : Str → Bool
unfolding is_slug_character
is_slug s = not (is_empty s) && all is_slug_character s

abbrev slug_shape : Str
slug_shape = str "^[A-Za-z0-9._-]+$"

abbrev keys_of : List (Str × Str) → List Str
keys_of [] = []
keys_of ((k, v) ∷ entries) = k ∷ keys_of entries

abbrev type_name : Json → Str
type_name (array xs) = str "[]interface {}"
type_name _ = str "map[string]interface {}"

abbrev members_of : Option (List (Str × Json)) → Record
members_of none = []
members_of (some ms) = ms

abbrev group_in : Option Json → Record
group_in none = []
group_in (some v) = members_of (as_object v)

abbrev texts_of : List (Str × Str) → Record
texts_of [] = []
texts_of ((k, v) ∷ entries) = (k, string v) ∷ texts_of entries

-- What the expressions of a slug see: the group's values, its key, the index and the inputs.
unfoldable pub slug_document : Catalog → ℕ → Str → RunContext → Record
unfolding lookup insert overlay as_object to_members decimal
slug_document catalog index key scope =
    insert (str "inputs") (object (to_members (texts_of scope.inputs))) (
      insert (str "chunkIndex") (number (decimal index)) (
        insert catalog.group_by (string key)
          (overlay [] (group_in (lookup (str "group") scope.locals)))))

module _ (engine : Engine) where
  abbrev kind_of : Option Json → Str
  kind_of none = []
  kind_of (some null) = []
  kind_of (some v) = engine.show v

  abbrev first_kind : Str → List Record → Str
  first_kind field [] = []
  first_kind field (row ∷ rows) = kind_of (lookup field row)

  abbrev no_mapping : Render → Str → Run Str
  no_mapping render kind = failed (
      str "render.mappingByField "
      ∷ engine.quote render.mapping_by_field
      ∷ str ": this chunk's value is "
      ∷ engine.quote kind
      ∷ str ", which has no render mapping (have: "
      ∷ join (str ", ") (sort_strings (keys_of render.mappings))
      ∷ str ")"
      ∷ [])

  abbrev mapping_of : Render → Str → Option Str → Run Str
  mapping_of render kind none = no_mapping render kind
  mapping_of render kind (some m) = if is_empty m then no_mapping render kind else done m

  -- renderMappingFor
  unfoldable pub render_mapping_for : Render → List Record → Run Str
  unfolding lookup sort_strings join
  render_mapping_for render chunk =
      if is_empty render.mapping_by_field
      then done render.mapping
      else (let kind = first_kind render.mapping_by_field chunk in
          mapping_of render kind (lookup kind render.mappings))

  -- safeSlug, for a slug that is what `source` produced.
  unfoldable pub safe_slug : Str → Str → Run Str
  unfolding is_slug
  safe_slug slug source =
      if is_slug slug
      then done slug
      else failed (
          source
          ∷ str " produced "
          ∷ engine.quote slug
          ∷ str ", which is not a safe catalog name: it becomes a filename and must match "
          ∷ slug_shape
          ∷ [])

  abbrev not_a_name : Str → Json → Run Str
  not_a_name expr v = failed (
      str "chunk slug: "
      ∷ engine.quote expr
      ∷ str " produced a "
      ∷ type_name v
      ∷ str ", which is not a name"
      ∷ [])

  abbrev slug_piece : Str → Json → Run Str
  slug_piece expr null =
      failed (str "chunk slug: " ∷ engine.quote expr ∷ str " resolved to nothing" ∷ [])
  slug_piece expr (array xs) = not_a_name expr (array xs)
  slug_piece expr (object ms) = not_a_name expr (object ms)
  slug_piece expr v = done (render_scalar engine v)

  abbrev pub slug_at : Record → Str → Run Str
  slug_at document expr =
      within (str "chunk slug: " ∷ []) (engine.evaluate expr document) >>= λ v. slug_piece expr v

  abbrev pub not_blank : Str → Str → Run Str
  not_blank template out =
      if is_empty (trim_space out)
      then failed (
          str "chunk slug "
          ∷ engine.quote template
          ∷ str " rendered empty: a catalog with no name cannot be written or published"
          ∷ [])
      else safe_slug out (str "chunk slug " ++ engine.quote template)

  -- catalogSlug
  unfoldable pub catalog_slug : Catalog → ℕ → Str → RunContext → Run Str
  unfolding replace_all trim_space render_scalar slug_document safe_slug
  catalog_slug catalog index key scope =
      if is_empty catalog.chunk.slug
      then safe_slug key (str "the group key")
      else replace_all (λ inner. slug_at (slug_document catalog index key scope) (trim_space inner))
          catalog.chunk.slug
        >>= λ out. not_blank catalog.chunk.slug out

  abbrev with_resource_id : Str → RunContext → Record → Run Record
  with_resource_id template scope row =
      within (str "identity.resourceId: " ∷ [])
        (interpolate engine (record_scope scope row) template)
      >>= λ t. done (insert (str "resourceId") (string t) row)

  -- The records of a chunk under their ids.
  unfoldable pub identified : Str → RunContext → List Record → Run (List Record)
  unfolding interpolate record_scope insert each
  identified template scope rows =
      if is_empty template then done rows else each (with_resource_id template scope) rows

  -- The id and the document of a chunk whose slug is known; `inner` holds the slug and the index.
  unfoldable pub render_under : Str → Catalog → List Record → Str → RunContext → Run (Str × Str)
  unfolding interpolate identified locals_of insert render_mapping_for of_records to_members
  render_under base catalog chunk slug inner =
      within (str "identity.catalogId: " ∷ []) (interpolate engine inner catalog.catalog_id)
      >>= λ catalog_id. identified catalog.resource_id inner chunk >>= λ rows.
          locals_of engine inner (λ name. str "render local " ++ engine.quote name)
            catalog.render.local_values
          >>= λ locals. render_mapping_for catalog.render rows >>= λ mapping.
              engine.resolve_reference base mapping >>= λ ref.
              within (str "rendering " ∷ slug ∷ str ": " ∷ []) (
                engine.transform ref
                  (mapping_input rows (insert (str "catalogId") (string catalog_id) locals)))
              >>= λ content. done (catalog_id, content)

  abbrev pub built_as : Str → Str × Str → Run BuiltCatalog
  built_as slug (catalog_id, content) =
      done (record { slug = slug; catalog_id = catalog_id; content = content })

  abbrev pub inner_scope : Str → ℕ → RunContext → RunContext
  inner_scope slug index scope =
      with_local (str "chunkIndex") (number (decimal index))
        (with_local (str "slug") (string slug) scope)

  -- catalogRender, for a pipeline file at `base`.
  unfoldable pub catalog_render :
      Str → Catalog → List Record → ℕ → Str → RunContext → Run BuiltCatalog
  unfolding catalog_slug with_local render_under decimal
  catalog_render base catalog chunk index key scope =
      catalog_slug catalog index key scope >>= λ slug.
      render_under base catalog chunk slug (inner_scope slug index scope) >>= built_as slug
