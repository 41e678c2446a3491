-- ===== src/Pipeline/Rows.antt =====
-- What the step primitives do to single records and to lists of them: interpreter.go.
use network_adapter.Prelude.{
  ℕ, ◌+◌, Bool, true, Option, none, some, List, [], ◌∷◌, if◌then◌else◌, is_empty, any, get_or, Str,
  str_eq, lookup, insert, map,
}
use network_adapter.Text.{str, trim_space}
use network_adapter.Json.{Json, null, as_string}
use network_adapter.Pipeline.Fault.{Run, done, failed, within, ◌>>=◌}
use network_adapter.Pipeline.Value.{Engine, Record, render_scalar, to_strings}
use network_adapter.Pipeline.Context.{RunContext, matches}
use network_adapter.Pipeline.Spec.{With}

abbrev carried : Str → Option Json → Record → Record
carried field none merged = merged
carried field (some v) merged = insert field v merged

unfoldable pub carry_fields : List Str → Record → Record → Record
unfolding lookup insert
carry_fields [] row merged = merged
carry_fields (field ∷ fields) row merged =
    carry_fields fields row (carried field (lookup field row) merged)

abbrev pub merged_with : List Str → Option Record → Record → Record
merged_with fields none row = row
merged_with fields (some found) row = carry_fields fields found row

abbrev text_at : Str → Record → Option Str
text_at key fields = elim (lookup key fields) [ none ↦ none | some v ↦ as_string v ]

abbrev value_of_rule : Record → Json
value_of_rule rule = get_or (lookup (str "value") rule) null

-- delete(record, field)
unfoldable pub remove : Str → Record → Record
unfolding str_eq
remove field [] = []
remove field ((k, v) ∷ fields) =
    let rest = remove field fields in if str_eq k field then rest else (k, v) ∷ rest

unfoldable pub remove_all : List Str → Record → Record
unfolding remove
remove_all [] fields = fields
remove_all (k ∷ ks) fields = remove_all ks (remove k fields)

module _ (engine : Engine) where
  abbrev pub with_row : Option Json → Record → List (Str × Record) → List (Str × Record)
  with_row none row index = index
  with_row (some key) row index = insert (render_scalar engine key) row index

  -- The index of the right rows by their key; a later row replaces an earlier one.
  unfoldable pub index_rows : Str → List (Str × Record) → List Record → List (Str × Record)
  unfolding insert render_scalar
  index_rows on index [] = index
  index_rows on index (row ∷ rows) = index_rows on (with_row (lookup on row) row index) rows

  abbrev pub match_of : List (Str × Record) → Option Json → Option Record
  match_of index none = none
  match_of index (some key) = lookup (render_scalar engine key) index

  -- A left row with the fields of its match.
  unfoldable pub join_row : Str → List Str → List (Str × Record) → Record → Record
  unfolding lookup carry_fields render_scalar
  join_row on fields index row = merged_with fields (match_of index (lookup on row)) row

  unfoldable pub join_rows : Str → List Str → List Record → List Record → List Record
  unfolding join_row index_rows
  join_rows on fields left right = map (join_row on fields (index_rows on [] right)) left

  -- firstMatchingRule
  unfoldable pub first_matching_rule : RunContext → List Record → Record → Run Json
  unfolding lookup as_string matches
  first_matching_rule rc [] fields =
      failed (str "no rule matched and none is a default (a rule with no `when:`)" ∷ [])
  first_matching_rule rc (rule ∷ rules) fields =
      let rest = first_matching_rule rc rules fields in
      elim (text_at (str "when") rule) [
        | none ↦ done (value_of_rule rule)
        | some when ↦
            matches engine rc when fields >>= λ hit. if hit then done (value_of_rule rule) else rest
      ]

  abbrev edited : Record → Record → Record
  edited edit fields = elim (lookup (str "clear") edit) [
    | none ↦ fields
    | some v ↦ remove_all (to_strings engine v) fields
  ]

  abbrev applies : RunContext → Option Str → Record → Run Bool
  applies rc none fields = done true
  applies rc (some when) fields = matches engine rc when fields

  -- applyThen
  unfoldable pub apply_then : RunContext → List Record → Record → Run Record
  unfolding lookup as_string matches remove_all to_strings
  apply_then rc [] fields = done fields
  apply_then rc (edit ∷ edits) fields = applies rc (text_at (str "when") edit) fields >>= λ hit.
      apply_then rc edits (if hit then edited edit fields else fields)

  unfoldable pub derive_row : RunContext → With → Record → Run Record
  unfolding first_matching_rule apply_then insert
  derive_row rc args fields = first_matching_rule rc args.rules fields >>= λ v.
      apply_then rc args.then_edits (insert args.field v fields)

  abbrev no_key : Option Json → Bool
  no_key none = true
  no_key (some null) = true
  no_key (some v) = is_empty (trim_space (render_scalar engine v))

  -- A record whose key is absent, null or blank.
  unfoldable pub is_keyless : Str → Record → Bool
  unfolding lookup trim_space render_scalar
  is_keyless key fields = no_key (lookup key fields)

  unfoldable pub count_keyless : Str → List Record → ℕ
  unfolding is_keyless
  count_keyless key [] = 0
  count_keyless key (row ∷ rows) = (if is_keyless key row then 1 else 0) + count_keyless key rows

  -- The text that tells records apart.
  unfoldable pub key_of : Str → Record → Str
  unfolding lookup render_scalar
  key_of key fields = render_scalar engine (get_or (lookup key fields) null)

  -- The loop of dedupe; `seen` holds the keys so far.
  unfoldable pub first_rows : Str → List Str → List Record → List Record
  unfolding key_of str_eq
  first_rows key seen [] = []
  first_rows key seen (row ∷ rows) =
      let repeat = any (str_eq (key_of key row)) seen in
      let rest = first_rows key (if repeat then seen else key_of key row ∷ seen) rows in
      if repeat then rest else row ∷ rest

  -- The loop of filter.
  unfoldable pub keep_rows : RunContext → Str → List Record → Run (List Record)
  unfolding matches
  keep_rows rc when [] = done []
  keep_rows rc when (row ∷ rows) =
      let rest = keep_rows rc when rows in
      within (str "filter when " ∷ engine.quote when ∷ str ": " ∷ []) (matches engine rc when row)
      >>= λ hit. rest >>= λ kept. done (if hit then row ∷ kept else kept)
