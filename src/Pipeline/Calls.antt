-- ===== src/Pipeline/Calls.antt =====
-- The calls of the upstream, and what a rejected credential leads to: interpreter.go.
use network_adapter.Prelude.{
  ℕ, suc, ◌++◌, Bool, false, ◌||◌, ◌&&◌, Option, none, some, List, [], ◌∷◌, not, if◌then◌else◌,
  is_empty, any, leb, ◌==◌, Str, lookup,
}
use network_adapter.Text.{str}
use network_adapter.Json.{Json}
use network_adapter.Pipeline.Fault.{
  Class, Fault, Run, done, fail, failed, wrap, within, Doing, ◌>>-◌, only,
}
use network_adapter.Pipeline.Value.{Engine, Record, Counters, count_by, of_records}
use network_adapter.Pipeline.Context.{RunContext, interpolate}
use network_adapter.Pipeline.Spec.{Step, StepOutcome}
use network_adapter.Pipeline.Primitives.{locals_of, decode_mapped}

-- The pipeline's client and its authenticator, whose answers depend on how much was asked before;
-- and ctx.Err(). `get` and `post` take the credential, the mapping, the path and the locals.
pub record Upstream : Type 0 where
  pub has_client : Bool
  pub has_auth : Bool
  pub reexchange_on : List ℕ
  pub get : ℕ → Str → Str → Str → Record → Run Str
  pub post : ℕ → Str → Str → Str → Record → Run Str
  pub prepare : ℕ → Run Str
  pub context_error : ℕ → Option Fault

-- stepRunner and its runContext; `asked` counts what the upstream and the context were asked, and
-- `prepares` the calls of the authenticator among it.
pub record Runner : Type 0 where
  pub inputs : List (Str × Str)
  pub utc_offset : Str
  pub token : Str
  pub outputs : List (Str × Json)
  pub counters : Counters
  pub reauths : ℕ
  pub last_output : Json
  pub asked : ℕ
  pub prepares : ℕ

-- What changes the runner and may fail.
abbrev pub Act {ℓ} : Type ℓ → Type ℓ
Act T = Doing Runner T

abbrev pub max_reauths_per_run : ℕ
max_reauths_per_run = 3

-- r.rc
unfoldable pub own_context : Runner → RunContext
own_context r = record {
  inputs = r.inputs;
  token = r.token;
  outputs = r.outputs;
  utc_offset = r.utc_offset;
  locals = [];
}

-- record
unfoldable pub record_outcome : StepOutcome → Runner → Runner
unfolding count_by
record_outcome outcome r =
    if is_empty outcome.counter
    then r
    else record r { counters = count_by outcome.counter 1 r.counters }

abbrev pub class_name : Class → Str
class_name Class.no_data = str "emptyResult"
class_name (Class.reauth status) = str "reauth"
class_name _ = str "transportError"

-- outcomeFor
unfoldable pub outcome_for : Step → Fault → Option StepOutcome
unfolding lookup
outcome_for step f = lookup (class_name f.class) step.on_error

-- statusListed
unfoldable pub status_listed : List ℕ → Class → Bool
status_listed statuses (Class.reauth status) = any (λ s. s == status) statuses
status_listed statuses _ = false

module _ (engine : Engine) (up : Upstream) (base : Str) where
  -- ctx.Err()
  unfoldable pub check_context : Act (Unit {0})
  check_context r = (
    record r { asked = suc r.asked },
    elim (up.context_error r.asked) [ none ↦ done tt | some f ↦ fail f ],
  )

  abbrev pub called : (ℕ → Str → Str → Str → Record → Run Str) → Str → Str → Record → Act Str
  called ask ref path locals r =
      (record r { asked = suc r.asked }, ask r.asked r.token ref path locals)

  abbrev pub no_upstream : Step → Run Json
  no_upstream step =
      failed
        (step.uses ∷ str " needs an upstream, and this pipeline declares no `upstream:` block" ∷ [])

  -- httpGet
  unfoldable pub http_get : Step → RunContext → Act Json
  unfolding interpolate locals_of
  http_get step rc =
      if not up.has_client
      then only (no_upstream step)
      else if is_empty step.args.path || is_empty step.args.mapping
      then only (failed (str "http.get needs both `path:` and `mapping:`" ∷ []))
      else only (interpolate engine rc step.args.path) >>- λ path.
          only (locals_of engine rc (λ key. str "local." ++ key) step.args.local_values)
          >>- λ locals. only (engine.resolve_reference base step.args.mapping) >>- λ ref.
              called up.get ref path locals >>- λ raw.
              only (within (str "the mapped response did not decode: " ∷ []) (engine.decode raw))

  -- httpPost
  unfoldable pub http_post : Step → RunContext → Act Json
  unfolding interpolate locals_of decode_mapped of_records
  http_post step rc =
      if not up.has_client
      then only (no_upstream step)
      else if is_empty step.args.path || is_empty step.args.mapping
      then only (failed (str "http.post needs both `path:` and `mapping:`" ∷ []))
      else only (interpolate engine rc step.args.path) >>- λ path.
          only (engine.resolve_reference base step.args.mapping) >>- λ ref.
          only (
            locals_of engine rc (λ key. str "http.post local " ++ engine.quote key)
              step.args.local_values)
          >>- λ locals. called up.post ref path locals >>- λ raw.
              only (decode_mapped engine raw) >>- λ rows. only (done (of_records rows))

  abbrev pub with_token :
      (RunContext → Act Json) → RunContext → Runner × Run Str → Runner × Run Json
  with_token call rc (r, fail f) = (r, fail (wrap (str "re-exchanging credentials: " ∷ []) f))
  with_token call rc (r, done token) =
      call (record rc { token = token }) (record r { token = token })

  -- One call of the authenticator, which may fail.
  abbrev pub prepared : Act Str
  prepared r = (record r { asked = suc r.asked; prepares = suc r.prepares }, up.prepare r.asked)

  -- What follows a rejected credential.
  unfoldable pub reexchange : (RunContext → Act Json) → RunContext → Fault → Act Json
  unfolding count_by
  reexchange call rc f r =
      if leb max_reauths_per_run r.reauths
      then (r, fail f)
      else with_token call rc (
          prepared
            (record r { reauths = suc r.reauths; counters = count_by (str "reauth") 1 r.counters }))

  abbrev pub retried : (RunContext → Act Json) → RunContext → Runner × Run Json → Runner × Run Json
  retried call rc (r, done v) = (r, done v)
  retried call rc (r, fail f) =
      if up.has_auth && status_listed up.reexchange_on f.class
      then reexchange call rc f r
      else (r, fail f)

  -- withReauth
  unfoldable pub with_reauth : (RunContext → Act Json) → RunContext → Act Json
  unfolding status_listed reexchange
  with_reauth call rc r = retried call rc (call rc r)
