-- ===== src/Pipeline/Interpreter.antt =====
-- The steps of a run, in order: interpreter.go.
use network_adapter.Prelude.{
  ℕ, ◌++◌, Bool, true, false, ◌&&◌, Option, none, some, List, [], ◌∷◌, not, if◌then◌else◌, is_empty,
  length, ltb, Str, str_eq, insert,
}
use network_adapter.Text.{str, decimal}
use network_adapter.Json.{Json, string}
use network_adapter.Pipeline.Fault.{Fault, Run, done, fail, failed, within, ◌>>=◌, ◌>>-◌, only}
use network_adapter.Pipeline.Value.{
  Engine, Record, as_records, of_records, to_members, is_empty_value, truthy,
}
use network_adapter.Pipeline.Context.{RunContext, resolve, interpolate_predicate, with_local}
use network_adapter.Pipeline.Spec.{Step, StepOutcome}
use network_adapter.Pipeline.Primitives.{
  Scope, collection, reference_of, join, derive, dedupe, filter, transform, const_records, concat,
}
use network_adapter.Pipeline.Calls.{
  Upstream, Runner, Act, own_context, record_outcome, outcome_for, check_context, http_get,
  http_post, with_reauth,
}

module _ (engine : Engine) (up : Upstream) (base : Str) where
  abbrev pub scope_of : RunContext → Runner → Scope
  scope_of rc r = record { own = own_context r; iteration = rc; last_output = r.last_output }

  abbrev pub rows_of : Run (List Record) → Run Json
  rows_of res = res >>= λ rows. done (of_records rows)

  abbrev pub primitive_names : Str
  primitive_names =
      str "http.get, http.post, join, derive, dedupe, filter, transform, const, concat"

  -- primitive
  unfoldable pub primitive : Step → RunContext → Act Json
  unfolding own_context with_reauth http_get http_post join derive dedupe filter transform
      const_records concat of_records str_eq
  primitive step rc r =
      if str_eq step.uses (str "http.get")
      then with_reauth engine up base (http_get engine up base step) rc r
      else if str_eq step.uses (str "http.post")
      then with_reauth engine up base (http_post engine up base step) rc r
      else if str_eq step.uses (str "join")
      then (r, rows_of (join engine (scope_of rc r) step))
      else if str_eq step.uses (str "derive")
      then (r, rows_of (derive engine (scope_of rc r) step))
      else if str_eq step.uses (str "dedupe")
      then (r, rows_of (dedupe engine (scope_of rc r) step))
      else if str_eq step.uses (str "filter")
      then (r, rows_of (filter engine (scope_of rc r) step))
      else if str_eq step.uses (str "transform")
      then (r, rows_of (transform engine base (scope_of rc r) step))
      else if str_eq step.uses (str "const")
      then (r, rows_of (const_records step))
      else if str_eq step.uses (str "concat")
      then (r, rows_of (concat engine (scope_of rc r) step))
      else (
        r,
        failed (
            str "uses: "
            ∷ engine.quote step.uses
            ∷ str " is not a primitive this runner implements ("
            ∷ primitive_names
            ∷ str ")"
            ∷ []),
      )

  abbrev pub outcome_of_error : Step → Fault → Option StepOutcome → Act (List Record)
  outcome_of_error step f none r = (r, fail f)
  outcome_of_error step f (some o) r = (record_outcome o r, if o.continue then done [] else fail f)

  -- The rows that one iteration adds.
  abbrev pub gathered : Step → Runner × Run Json → Runner × Run (List Record)
  gathered step (r, fail f) =
      (check_context engine up base >>- λ _. outcome_of_error step f (outcome_for step f)) r
  gathered step (r, done v) =
      if is_empty_value v
      then (record_outcome step.on_empty_output r, done [])
      else (r, as_records v)

  -- One iteration of forEach.
  unfoldable pub iterate : Step → Record → Act (List Record)
  unfolding check_context own_context with_local primitive record_outcome outcome_for is_empty_value
      as_records to_members
  iterate step item = check_context engine up base >>- λ _. λ r.
      gathered step (
        primitive step (with_local step.loop_name (Json.object (to_members item)) (own_context r))
          r)

  unfoldable pub iterate_all : Step → List Record → Act (List Record)
  unfolding iterate
  iterate_all step [] = only (done [])
  iterate_all step (item ∷ items) =
      iterate step item >>- λ rows. iterate_all step items >>- λ more. only (done (rows ++ more))

  -- dispatch
  unfoldable pub dispatch : Step → Act Json
  unfolding primitive own_context collection iterate_all of_records decimal
  dispatch step r =
      if is_empty step.for_each
      then primitive step (own_context r) r
      else if ltb 1 step.concurrency
      then (
        r,
        failed (
            str "concurrency: "
            ∷ decimal step.concurrency
            ∷ str " is not supported; only 1 is"
            ∷ []),
      )
      else if is_empty step.loop_name
      then (r, failed (str "forEach needs `as:` to name the loop variable" ∷ []))
      else (only (collection engine (own_context r) step.for_each) >>- λ items.
            iterate_all step items >>- λ rows. only (done (of_records rows)))
          r

  -- stepResult
  pub record StepResult : Type 0 where
    pub value : Json
    pub passed_through : Bool

  abbrev not_a_text : Str → Json → Run Json
  not_a_text const_ (string s) =
      if is_empty s
      then done (string s)
      else failed (
          str "else.const "
          ∷ const_
          ∷ str " resolved to the text "
          ∷ engine.quote s
          ∷ str "; a step's output must be a list of records"
          ∷ [])
  not_a_text const_ v = done v

  -- elseValue, for a constant that is given.
  unfoldable pub else_value : RunContext → Str → Run Json
  unfolding reference_of resolve
  else_value own const_ =
      within (str "else.const: " ∷ []) (resolve engine own (reference_of const_)) >>= λ v.
      not_a_text const_ v

  -- condition
  unfoldable pub condition : RunContext → Str → Run Bool
  unfolding interpolate_predicate truthy
  condition own when = interpolate_predicate engine own when >>= λ expr. truthy engine expr []

  abbrev produced : Json → StepResult
  produced v = record { value = v; passed_through = false }

  -- A step whose condition does not hold.
  abbrev pub skipped : Step → Act StepResult
  skipped step r =
      if is_empty step.other
      then (r, done (record { value = r.last_output; passed_through = true }))
      else (r, else_value (own_context r) step.other >>= λ v. done (produced v))

  abbrev pub full : Step → Json → Run StepResult
  full step v =
      if not (is_empty step.fail_when_empty) && is_empty_value v
      then failed (step.fail_when_empty ∷ [])
      else done (produced v)

  -- The part of runStep behind the condition.
  abbrev pub performed : Step → Act StepResult
  performed step = dispatch step >>- λ v. only (full step v)

  abbrev pub runs : Step → Runner → Run Bool
  runs step r = if is_empty step.when then done true else condition (own_context r) step.when

  abbrev pub when_true : Step → Bool → Act StepResult
  when_true step true = performed step
  when_true step false = skipped step

  -- runStep
  unfoldable pub run_step : Step → Act StepResult
  unfolding condition own_context else_value dispatch is_empty_value
  run_step step r = (only (runs step r) >>- λ hit. when_true step hit) r

  abbrev counted : Str → Run (List Record) → List (Str × ℕ) → List (Str × ℕ)
  counted id (done rows) counters = insert (str "step:" ++ id) (length rows) counters
  counted id (fail f) counters = counters

  -- What runSteps keeps of a step's result.
  unfoldable pub keep_result : Step → StepResult → Runner → Runner
  unfolding insert as_records
  keep_result step res r =
      if res.passed_through then record r { last_output = res.value } else record r {
        outputs = (if is_empty step.out then r.outputs else insert step.out res.value r.outputs);
        last_output = res.value;
        counters = counted step.id (as_records res.value) r.counters;
      }

  abbrev pub named : Step → Runner × Run StepResult → Runner × Run StepResult
  named step (r, res) = (r, within (str "step " ∷ engine.quote step.id ∷ str ": " ∷ []) res)

  -- One round of runSteps.
  unfoldable pub take_step : Step → Act (Unit {0})
  unfolding check_context run_step keep_result
  take_step step =
      (λ r. named step ((check_context engine up base >>- λ _. run_step step) r)) >>- λ res.
      λ r. (keep_result step res r, done tt)

  unfoldable pub take_steps : List Step → Act (Unit {0})
  unfolding take_step
  take_steps [] = only (done tt)
  take_steps (step ∷ steps) = take_step step >>- λ _. take_steps steps

  -- runSteps
  unfoldable pub run_steps : List Step → Act (List Record)
  unfolding take_steps as_records
  run_steps [] r = (r, failed (str "the pipeline declares no steps" ∷ []))
  run_steps (step ∷ steps) r =
      (take_steps (step ∷ steps) >>- λ _. λ r'. (
        r',
        within (str "the last step did not produce a collection: " ∷ [])
            (as_records r'.last_output),
      ))
        r
