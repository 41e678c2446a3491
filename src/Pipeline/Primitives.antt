-- ===== src/Pipeline/Primitives.antt =====
-- The step primitives that call no upstream: interpreter.go.
use network_adapter.Prelude.{
  ◌++◌, ◌&&◌, List, [], ◌∷◌, not, if◌then◌else◌, is_empty, length, ltb, Str, str_eq,
}
use network_adapter.Text.{str, trim_space, trim_prefix, trim_of, decimal}
use network_adapter.Json.{Json, null, string, object}
use network_adapter.Pipeline.Fault.{Run, done, failed, within, each, ◌>>=◌}
use network_adapter.Pipeline.Value.{Engine, Record, as_records, of_records, to_members}
use network_adapter.Pipeline.Context.{RunContext, resolve, interpolate}
use network_adapter.Pipeline.Spec.{Step}
use network_adapter.Pipeline.Rows.{join_rows, derive_row, count_keyless, first_rows, keep_rows}

-- What a primitive reads: the runner's context, that of the iteration, and the output of the step
-- before.
pub record Scope : Type 0 where
  pub own : RunContext
  pub iteration : RunContext
  pub last_output : Json

-- The reference between "${" and "}".
unfoldable pub reference_of : Str → Str
unfolding trim_space trim_prefix trim_of
reference_of s = trim_of b'}' (trim_prefix (str "${") (trim_space s))

-- The input of a mapping.
abbrev pub mapping_input : List Record → Record → Json
mapping_input rows locals = object (
    to_members
      ((str "response", of_records rows) ∷ (str "_local", object (to_members locals)) ∷ []))

-- constRecords
unfoldable pub const_records : Step → Run (List Record)
const_records step =
    if is_empty step.args.records
    then failed (str "const needs at least one entry in `with.records:`" ∷ [])
    else done step.args.records

module _ (engine : Engine) where
  -- collection
  unfoldable pub collection : RunContext → Str → Run (List Record)
  unfolding reference_of resolve as_records
  collection own reference =
      if is_empty reference
      then failed (str "no collection named" ∷ [])
      else resolve engine own (reference_of reference) >>= λ v. as_records v

  abbrev previous : Step → Json → Run (List Record)
  previous step null = failed (step.uses ∷ str " has no input: no step before it produced one" ∷ [])
  previous step v = as_records v

  -- currentCollection
  unfoldable pub current_collection : Scope → Step → Run (List Record)
  unfolding collection as_records
  current_collection s step =
      if is_empty step.args.left
      then previous step s.last_output
      else collection s.own step.args.left

  -- join
  unfoldable pub join : Scope → Step → Run (List Record)
  unfolding collection join_rows str_eq
  join s step =
      if not (is_empty step.args.type) && not (str_eq step.args.type (str "left"))
      then failed (
          str "join type "
          ∷ engine.quote step.args.type
          ∷ str " is not supported; only `left` is"
          ∷ [])
      else if is_empty step.args.on
      then failed (str "join needs `on:` to name the key" ∷ [])
      else within (str "join left: " ∷ []) (collection s.own step.args.left) >>= λ left.
          within (str "join right: " ∷ []) (collection s.own step.args.right) >>= λ right.
          done (join_rows engine step.args.on step.args.carry left right)

  -- derive
  unfoldable pub derive : Scope → Step → Run (List Record)
  unfolding current_collection derive_row each
  derive s step =
      if is_empty step.args.field
      then failed (str "derive needs `field:` to name what it computes" ∷ [])
      else current_collection s step >>= λ rows. each (derive_row engine s.iteration step.args) rows

  -- dedupe
  unfoldable pub dedupe : Scope → Step → Run (List Record)
  unfolding current_collection count_keyless first_rows decimal
  dedupe s step =
      if is_empty step.args.key
      then failed (str "dedupe needs `key:`" ∷ [])
      else current_collection s step >>= λ rows.
          if ltb 0 (count_keyless engine step.args.key rows)
          then failed (
              str "dedupe on "
              ∷ engine.quote step.args.key
              ∷ str ": "
              ∷ decimal (count_keyless engine step.args.key rows)
              ∷ str " of "
              ∷ decimal (length rows)
              ∷ str " records have no usable "
              ∷ engine.quote step.args.key
              ∷ str " (absent, null or blank)"
              ∷ [])
          else done (first_rows engine step.args.key [] rows)

  -- filter
  unfoldable pub filter : Scope → Step → Run (List Record)
  unfolding current_collection keep_rows
  filter s step =
      if is_empty step.args.when
      then failed (str "filter needs `with.when:` — a JSONata predicate to keep records by" ∷ [])
      else current_collection s step >>= λ rows. keep_rows engine s.iteration step.args.when rows

  abbrev local_entry : RunContext → (Str → Str) → Str × Str → Run (Str × Json)
  local_entry rc label (key, template) =
      within (label key ∷ str ": " ∷ []) (interpolate engine rc template) >>= λ t.
      done (key, string t)

  -- The values of `local:`, with the name that an error gives to a key.
  unfoldable pub locals_of : RunContext → (Str → Str) → List (Str × Str) → Run Record
  unfolding interpolate each
  locals_of rc label entries = each (local_entry rc label) entries

  -- decodeMapped
  unfoldable pub decode_mapped : Str → Run (List Record)
  unfolding as_records
  decode_mapped raw =
      within (str "the mapped response did not decode: " ∷ []) (engine.decode raw) >>= λ v.
      as_records v

  -- transform, for a pipeline file at `base`.
  unfoldable pub transform : Str → Scope → Step → Run (List Record)
  unfolding current_collection locals_of decode_mapped of_records
  transform base s step =
      if is_empty step.args.mapping
      then failed (str "transform needs `with.mapping:`" ∷ [])
      else current_collection s step >>= λ rows.
          engine.resolve_reference base step.args.mapping >>= λ ref.
          locals_of s.iteration (λ key. str "transform local " ++ engine.quote key)
            step.args.local_values
          >>= λ locals.
              within (str "transform " ∷ step.args.mapping ∷ str ": " ∷ [])
                (engine.transform ref (mapping_input rows locals))
              >>= λ out. decode_mapped out

  unfoldable pub concat_of : RunContext → List Str → Run (List Record)
  unfolding collection
  concat_of own [] = done []
  concat_of own (reference ∷ references) =
      let rest = concat_of own references in
      within (str "concat of " ∷ reference ∷ str ": " ∷ []) (collection own reference) >>= λ rows.
      rest >>= λ more. done (rows ++ more)

  -- concat
  unfoldable pub concat : Scope → Step → Run (List Record)
  unfolding concat_of decimal
  concat s step =
      if ltb (length step.args.of) 2
      then failed (
          str "concat needs at least two collections in `with.of:`, got "
          ∷ decimal (length step.args.of)
          ∷ [])
      else concat_of s.own step.args.of
