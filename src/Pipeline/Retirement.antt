-- ===== src/Pipeline/Retirement.antt =====
-- What retires an old catalog: retirement and resolveInputList of interpreter.go.
use network_adapter.Prelude.{
  Bool, false, ◌&&◌, Option, none, some, List, [], ◌∷◌, map, not, if◌then◌else◌, is_empty, get_or,
  Str, str_eq, lookup,
}
use network_adapter.Text.{
  str, trim_space, strip_prefix, strip_suffix, trim_prefix, trim_suffix, equal_fold, upper_letter,
}
use network_adapter.Pipeline.Fault.{Run, done, failed, ◌>>=◌}
use network_adapter.Pipeline.Spec.{RetireOld}

-- Retirement
pub record Retirement : Type 0 where
  pub catalog_id : Str
  pub descriptor_name : Str
  pub catalog_type : Str
  pub update_mode : Str
  pub visible_to : List Str
  pub schema_types : List Str

-- orDefault
unfoldable pub or_default : Str → Str → Str
unfolding trim_space
or_default value fallback = if is_empty (trim_space value) then fallback else trim_space value

-- The name in a whole entry `${inputs.name}`.
unfoldable pub input_name : Str → Option Str
unfolding strip_prefix strip_suffix
input_name entry = elim (strip_prefix (str "${inputs.") entry) [
  | none ↦ none
  | some s ↦ strip_suffix (str "}") s
]

abbrev with_entry : Str → List Str → List Str
with_entry entry entries = if is_empty entry then entries else entry ∷ entries

abbrev pub is_true : Option Bool → Bool
is_true none = false
is_true (some b) = b

-- strings.ToUpper, which two texts of ASCII are compared with.
abbrev upper : Str → Str
upper s = map upper_letter s

abbrev pub mode_of : RetireOld → Str
mode_of spec = upper (or_default spec.update_mode (str "MERGE"))

module _ (quote : Str → Str) where
  abbrev declared : Str → Str → Option Str → Run Str
  declared field entry value =
      if is_empty (trim_space (get_or value []))
      then failed (
          str "publish.retireOld."
          ∷ field
          ∷ str " names "
          ∷ entry
          ∷ str ", which is not declared or resolved to empty"
          ∷ [])
      else done (get_or value [])

  abbrev resolved_entry : Str → List (Str × Str) → Str → Option Str → Run Str
  resolved_entry field resolved entry none = done entry
  resolved_entry field resolved entry (some name) = declared field entry (lookup name resolved)

  -- resolveInputList
  unfoldable pub resolve_input_list : Str → List (Str × Str) → List Str → Run (List Str)
  unfolding trim_space input_name lookup
  resolve_input_list field resolved [] = done []
  resolve_input_list field resolved (entry ∷ entries) =
      let rest = resolve_input_list field resolved entries in
      resolved_entry field resolved (trim_space entry) (input_name (trim_space entry)) >>= λ e.
      rest >>= λ es. done (with_entry e es)

  abbrev pub retirement_of : RetireOld → List (Str × Str) → Run (Option Retirement)
  retirement_of spec resolved =
      if is_empty (trim_space spec.catalog_id)
      then failed (str "publish.retireOld is enabled but names no catalogId to retire" ∷ [])
      else if is_true spec.is_active
      then failed (
          str
            "publish.retireOld.isActive is true, but a retirement deactivates the catalog; remove it or set it to false"
          ∷ [])
      else if not (str_eq (mode_of spec) (str "MERGE")) && not (str_eq (mode_of spec) (str "FULL"))
      then failed (
          str "publish.retireOld.updateMode is "
          ∷ quote spec.update_mode
          ∷ str "; use MERGE or FULL"
          ∷ [])
      else resolve_input_list (str "visibleTo") resolved spec.visible_to >>= λ visible_to.
          resolve_input_list (str "schemaTypes") resolved spec.schema_types >>= λ schema_types.
          done (
            some (record {
              catalog_id = trim_space spec.catalog_id;
              descriptor_name = spec.descriptor_name;
              catalog_type = or_default spec.catalog_type (str "REGULAR");
              update_mode = mode_of spec;
              visible_to = visible_to;
              schema_types = schema_types;
            }))

  abbrev pub if_enabled : RetireOld → List (Str × Str) → Option Str → Run (Option Retirement)
  if_enabled spec resolved none = failed (
      str "publish.retireOld.enabled is "
      ∷ quote (trim_space spec.enabled)
      ∷ str ", but no such input is declared"
      ∷ [])
  if_enabled spec resolved (some value) =
      if equal_fold value (str "true") then retirement_of spec resolved else done none

  -- retirement
  unfoldable pub retirement : RetireOld → List (Str × Str) → Run (Option Retirement)
  unfolding trim_space trim_prefix trim_suffix lookup equal_fold or_default resolve_input_list
      str_eq
  retirement spec resolved =
      let enabled = trim_space spec.enabled in
      if is_empty enabled
      then done none
      else if_enabled spec resolved
          (lookup (trim_suffix (str "}") (trim_prefix (str "${inputs.") enabled)) resolved)
