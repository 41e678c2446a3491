-- ===== src/Pipeline/Catalog.antt =====
-- How a collection becomes the groups and the chunks of catalogs: run.go.
use network_adapter.Prelude.{
  ℕ, suc, ◌+◌, ◌%◌, ◌^◌, ◌++◌, Bool, true, false, ◌&&◌, Option, none, some, List, [], ◌∷◌, not,
  if◌then◌else◌, is_empty, is_some, get_or, ltb, ◌==◌, Str, lookup, insert,
}
use network_adapter.Text.{str, trim_space, decimal, equal_fold}
use network_adapter.Json.{Json, null, boolean, number, string}
use network_adapter.Pipeline.Fault.{Run, done, failed, within, Doing, ◌>>=◌, ◌>>-◌, only}
use network_adapter.Pipeline.Value.{Engine, Record, Counters, count_by, render_scalar, numeric}
use network_adapter.Pipeline.Context.{RunContext, interpolate, matches}
use network_adapter.Pipeline.Spec.{Catalog, ExcludeRule, AnnotateRule, Chunk}
use network_adapter.Pipeline.Order.{sort_strings}

-- The keys in the order of their first record, and the records of each.
pub record Groups : Type 0 where
  pub keys : List Str
  pub members : List (Str × List Record)

abbrev sorted_keys : Groups → Groups
sorted_keys g = record g { keys = sort_strings g.keys }

-- catalogBlank
unfoldable pub is_blank : Json → Bool
unfolding trim_space
is_blank null = true
is_blank (string s) = is_empty (trim_space s)
is_blank _ = false

abbrev is_settled : Option Json → Bool
is_settled none = false
is_settled (some v) = not (is_blank v)

unfoldable pub add_values : Record → Record → Record
unfolding lookup insert is_blank
add_values values [] = values
add_values values ((field, v) ∷ fields) =
    add_values (if is_settled (lookup field values) then values else insert field v values) fields

-- catalogGroupValues
unfoldable pub group_values : Record → List Record → Record
unfolding add_values
group_values values [] = values
group_values values (row ∷ rows) = group_values (add_values values row) rows

unfoldable pub overlay : List (Str × Json) → Record → List (Str × Json)
unfolding insert
overlay locals [] = locals
overlay locals ((k, v) ∷ fields) = overlay (insert k v locals) fields

-- catalogRecordScope
unfoldable pub record_scope : RunContext → Record → RunContext
unfolding overlay
record_scope scope row = record scope { locals = overlay scope.locals row }

abbrev pub rule_name : Str → ℕ → Str
rule_name kind i = kind ++ (str " rule " ++ decimal i)

abbrev pub labelled : AnnotateRule → Bool → Record → Record
labelled rule true kept = insert rule.label (boolean true) kept
labelled rule false kept = kept

abbrev pub label_counted : AnnotateRule → Bool → Counters → Counters
label_counted rule true counters = count_by (str "annotated:" ++ rule.label) 1 counters
label_counted rule false counters = counters

-- A sum of two `int`s, kept modulo 2 ^ 64, and whether it is above a budget: a sum from 2 ^ 63 on
-- is negative.
unfoldable pub add_int : ℕ → ℕ → ℕ
add_int a b = (a + b) % 2 ^ 64

unfoldable pub is_above : ℕ → ℕ → Bool
is_above n budget = ltb n (2 ^ 63) && ltb budget n

module _ (engine : Engine) where
  unfoldable pub add_member : Str → Record → Groups → Groups
  unfolding lookup insert
  add_member key row g = record {
    keys = (if is_some (lookup key g.members) then g.keys else g.keys ++ key ∷ []);
    members = insert key (get_or (lookup key g.members) [] ++ row ∷ []) g.members;
  }

  -- The loop of catalogGroup.
  unfoldable pub group_from : ℕ → Str → Groups → List Record → Run Groups
  unfolding lookup add_member render_scalar decimal
  group_from i by g [] = done g
  group_from i by g (row ∷ rows) = elim (lookup by row) [
    | none ↦
        failed
          (str "record " ∷ decimal i ∷ str " has no " ∷ engine.quote by ∷ str " to group by" ∷ [])
    | some v ↦ group_from (suc i) by (add_member (render_scalar engine v) row g) rows
  ]

  -- catalogGroup
  unfoldable pub catalog_group : Str → List Record → Run Groups
  unfolding group_from sort_strings
  catalog_group by rows =
      group_from 0 by (record { keys = []; members = [] }) rows >>= λ g. done (sorted_keys g)

  abbrev pub excluded_by : RunContext → Str → ExcludeRule → Record → Doing Counters Bool
  excluded_by scope name rule row =
      only (
        within (name ∷ str " reason: " ∷ [])
          (interpolate engine (record_scope scope row) rule.reason))
      >>- λ reason. λ counters.
        (count_by (str "excluded:" ++ reason) 1 (count_by (str "excluded") 1 counters), done true)

  abbrev pub exclude_match : RunContext → Str → ExcludeRule → Record → Run Bool
  exclude_match scope name rule row =
      if is_empty rule.when
      then failed (name ∷ str " has no `when:`" ∷ [])
      else if is_empty rule.reason
      then failed (name ∷ str " states no `reason:`" ∷ [])
      else within (name ∷ str ": " ∷ []) (matches engine scope rule.when row)

  -- catalogExcluded, from the rule with the given number on.
  unfoldable pub excluded : ℕ → List ExcludeRule → Record → RunContext → Doing Counters Bool
  unfolding matches interpolate record_scope count_by decimal
  excluded i [] row scope = only (done false)
  excluded i (rule ∷ rules) row scope =
      only (exclude_match scope (rule_name (str "exclude") i) rule row) >>- λ hit. elim hit [
        | true ↦ excluded_by scope (rule_name (str "exclude") i) rule row
        | false ↦ excluded (suc i) rules row scope
      ]

  abbrev pub annotate_match : RunContext → Str → AnnotateRule → Record → Run Bool
  annotate_match scope name rule row =
      if is_empty rule.label
      then failed (name ∷ str " says no `as:` field to set" ∷ [])
      else if is_empty rule.when
      then failed (name ∷ str " has no `when:`" ∷ [])
      else within (name ∷ str ": " ∷ []) (matches engine scope rule.when row)

  -- The annotations of a record that is kept, each tested on the record as it arrived.
  unfoldable pub annotated :
      ℕ → List AnnotateRule → Record → RunContext → Record → Doing Counters Record
  unfolding matches insert count_by decimal
  annotated i [] row scope kept = only (done kept)
  annotated i (rule ∷ rules) row scope kept =
      only (annotate_match scope (rule_name (str "annotate") i) rule row) >>- λ hit. λ counters.
        annotated (suc i) rules row scope (labelled rule hit kept) (label_counted rule hit counters)

  abbrev pub kept_row : Catalog → RunContext → Record → Bool → Doing Counters (List Record)
  kept_row catalog scope row true = only (done [])
  kept_row catalog scope row false =
      annotated 0 catalog.annotate row scope row >>- λ kept. only (done (kept ∷ []))

  -- What catalogSelect keeps of one record: nothing, or a labelled copy.
  unfoldable pub select_row : Catalog → RunContext → Record → Doing Counters (List Record)
  unfolding excluded annotated
  select_row catalog scope row =
      excluded 0 catalog.exclude row scope >>- λ out. kept_row catalog scope row out

  -- catalogSelect
  unfoldable pub select : Catalog → RunContext → List Record → Doing Counters (List Record)
  unfolding select_row
  select catalog scope [] = only (done [])
  select catalog scope (row ∷ rows) = select_row catalog scope row >>- λ kept.
      select catalog scope rows >>- λ more. only (done (kept ++ more))

  -- catalogCheckDirection
  unfoldable pub check_direction : Str → Run (Unit {0})
  unfolding equal_fold
  check_direction direction =
      if is_empty direction
      then done tt
      else if equal_fold direction (str "asc")
      then done tt
      else if equal_fold direction (str "desc")
      then done tt
      else failed (
          str "order direction "
          ∷ engine.quote direction
          ∷ str " is not supported; use asc or desc"
          ∷ [])

  abbrev cost_of : Str → Json → Option Str → Run ℕ
  cost_of expr v none = failed (
      str "chunk cost "
      ∷ engine.quote expr
      ∷ str " produced "
      ∷ engine.show v
      ∷ str ", which is not a number"
      ∷ [])
  cost_of expr v (some n) =
      if engine.is_negative n
      then failed (
          str "chunk cost "
          ∷ engine.quote expr
          ∷ str " produced "
          ∷ engine.show (number n)
          ∷ str ": a negative cost would buy back budget already spent"
          ∷ [])
      else done (engine.number_floor n)

  -- catalogCost
  unfoldable pub catalog_cost : Str → Record → Run ℕ
  unfolding trim_space numeric
  catalog_cost expr row =
      if is_empty (trim_space expr)
      then done 1
      else within (str "chunk cost: " ∷ []) (engine.evaluate expr row) >>= λ v.
          cost_of expr v (numeric v)

  -- The loop of catalogChunk: the run that is being filled and what it has spent.
  unfoldable pub chunk_from : Chunk → List Record → ℕ → List Record → Run (List (List Record))
  unfolding catalog_cost add_int is_above
  chunk_from spec current spent [] = done (if is_empty current then [] else current ∷ [])
  chunk_from spec current spent (row ∷ rows) = catalog_cost spec.cost row >>= λ cost.
      elim (not (is_empty current) && is_above (add_int spent cost) spec.budget) [
        | true ↦ chunk_from spec (row ∷ []) (add_int 0 cost) rows >>= λ more. done (current ∷ more)
        | false ↦ chunk_from spec (current ++ row ∷ []) (add_int spent cost) rows
      ]

  -- catalogChunk
  unfoldable pub catalog_chunk : Chunk → List Record → Run (List (List Record))
  unfolding chunk_from
  catalog_chunk spec rows = if spec.budget == 0 then done (rows ∷ []) else chunk_from spec [] 0 rows
