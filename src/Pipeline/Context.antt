-- ===== src/Pipeline/Context.antt =====
-- runContext: what a ${…} can name, and what it is replaced by: expressions.go.
use network_adapter.Prelude.{
  Bool, Option, none, some, List, [], ◌∷◌, not, if◌then◌else◌, is_empty, Str, str_eq, lookup,
  insert,
}
use network_adapter.Text.{str, cut, contains, split, trim_space}
use network_adapter.Json.{Json, string, array, object, as_object}
use network_adapter.Pipeline.Fault.{Run, done, failed, within, ◌>>=◌}
use network_adapter.Pipeline.Value.{Engine, Record, go_type, render_scalar, truthy}
use network_adapter.Pipeline.Expand.{replace_all}

-- runContext
pub record RunContext : Type 0 where
  pub inputs : List (Str × Str)
  pub token : Str
  pub outputs : List (Str × Json)
  pub utc_offset : Str
  pub locals : List (Str × Json)

-- newRunContext
unfoldable pub new_run_context : List (Str × Str) → Str → RunContext
new_run_context inputs token = record {
  inputs = inputs;
  token = token;
  outputs = [];
  utc_offset = [];
  locals = [];
}

-- with
unfoldable pub with_local : Str → Json → RunContext → RunContext
with_local name value c = record c { locals = insert name value c.locals }

abbrev first_of : Option Json → Option Json → Option Json
first_of (some v) other = some v
first_of none other = other

abbrev head_and_rest : Str → Option (Str × Str) → Str × Str
head_and_rest path none = (path, [])
head_and_rest path (some p) = p

abbrev no_literal : Json → Run Str
no_literal v =
    failed (str "a " ∷ go_type v ∷ str " cannot be written into an expression as a literal" ∷ [])

module _ (engine : Engine) where
  abbrev field_in : Str → Str → Option (List (Str × Json)) → Run Json
  field_in full field none =
      failed (str "${" ∷ full ∷ str "}: " ∷ engine.quote field ∷ str " is not an object" ∷ [])
  field_in full field (some ms) = elim (lookup field ms) [
    | none ↦ failed (str "${" ∷ full ∷ str "}: no field " ∷ engine.quote field ∷ [])
    | some v ↦ done v
  ]

  -- The loop of traverse.
  unfoldable pub traverse : Str → List Str → Json → Run Json
  unfolding as_object
  traverse full [] value = done value
  traverse full (field ∷ fields) value =
      field_in full field (as_object value) >>= λ v. traverse full fields v

  abbrev rooted : Str → Str → Str → Option Json → Run Json
  rooted path head rest none = failed (
      str "${"
      ∷ path
      ∷ str "} names nothing: no input, step output or loop variable called "
      ∷ engine.quote head
      ∷ [])
  rooted path head rest (some root) =
      if is_empty rest then done root else traverse path (split b'.' rest) root

  abbrev input_of : Str → Option Str → Run Json
  input_of name none = failed (str "${inputs." ∷ name ∷ str "} is not a declared input" ∷ [])
  input_of name (some value) = done (string value)

  -- The part of lookup behind the built-ins, for the path's head and the rest.
  abbrev pub named : RunContext → Str → Str × Str → Run Json
  named c path (head, rest) =
      if str_eq head (str "inputs")
      then input_of rest (lookup rest c.inputs)
      else if str_eq head (str "metadata")
      then failed (str "${" ∷ path ∷ str "} is not available during a run" ∷ [])
      else rooted path head rest (first_of (lookup head c.locals) (lookup head c.outputs))

  -- lookup
  unfoldable pub resolve : RunContext → Str → Run Json
  unfolding traverse cut lookup str_eq split
  resolve c path =
      if str_eq path (str "uuid")
      then done (string engine.uuid)
      else if str_eq path (str "now.rfc3339")
      then done (string engine.now)
      else if str_eq path (str "schedule.utcOffset")
      then (if is_empty c.utc_offset
          then failed
              (str "${schedule.utcOffset} used before the schedule's zone was resolved" ∷ [])
          else done (string c.utc_offset))
      else if str_eq path (str "auth.token")
      then (if is_empty c.token
          then failed (str "${auth.token} used before a token was exchanged" ∷ [])
          else done (string c.token))
      else named c path (head_and_rest path (cut b'.' path))

  -- interpolate
  unfoldable pub interpolate : RunContext → Str → Run Str
  unfolding resolve replace_all trim_space render_scalar
  interpolate c s =
      replace_all (λ inner. resolve c (trim_space inner) >>= λ v. done (render_scalar engine v)) s

  -- exprLiteral
  unfoldable pub expr_literal : Json → Run Str
  expr_literal (array xs) = no_literal (array xs)
  expr_literal (object ms) = no_literal (object ms)
  expr_literal v = done (engine.encode v)

  abbrev literal_at : RunContext → Str → Run Str
  literal_at c path =
      resolve c path >>= λ v. within (str "${" ∷ path ∷ str "}: " ∷ []) (expr_literal v)

  -- interpolatePredicate
  unfoldable pub interpolate_predicate : RunContext → Str → Run Str
  unfolding resolve replace_all contains trim_space expr_literal
  interpolate_predicate c when =
      if not (contains (str "${") when)
      then done when
      else replace_all (λ inner. literal_at c (trim_space inner)) when

  -- predicate, and catalogMatches
  unfoldable pub matches : RunContext → Str → Record → Run Bool
  unfolding interpolate_predicate truthy
  matches c when fields = interpolate_predicate c when >>= λ expr. truthy engine expr fields
