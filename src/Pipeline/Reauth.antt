-- ===== src/Pipeline/Reauth.antt =====
-- How often a run asks for a new credential: interpreter.go.
use network_adapter.Prelude.{
  suc, ◌≤◌, inl, inr, Bool, true, false, ◌&&◌, ◌||◌, not, Option, none, some, List, [], ◌∷◌, ◌++◌,
  arith, is_empty, leb, ltb, if◌then◌else◌, Bool-cases, Str, str_eq, if-both, ◌+◌, ℕ,
}
use network_adapter.Text.{str}
use network_adapter.Json.{Json}
use network_adapter.Pipeline.Fault.{Fault, Run, done, fail, and_then}
use network_adapter.Pipeline.Value.{Engine, Record, count_by, is_empty_value, to_members}
use network_adapter.Pipeline.Context.{RunContext, interpolate, with_local}
use network_adapter.Pipeline.Primitives.{collection, locals_of, decode_mapped}
use network_adapter.Pipeline.Spec.{Step, StepOutcome}
use network_adapter.Pipeline.Interpreter.{
  primitive, outcome_of_error, gathered, iterate, iterate_all, dispatch, StepResult, runs,
  when_true, run_step, keep_result, named, take_step, take_steps, run_steps,
}
use network_adapter.Pipeline.Calls.{
  Upstream, Runner, Act, record_outcome, http_get, http_post, called, reexchange, with_token,
  retried, with_reauth, check_context, status_listed, own_context, outcome_for, prepared,
}

module _ (k p : ℕ) where
  -- At most three exchanges, and one call of the authenticator for each since the start.
  abbrev Within : Runner → Type 0
  Within r = (r.reauths ≤ 3) × (r.prepares + k ≤ p + r.reauths)

  -- The runner after an action, with a result or without.
  record Kept {T : Type 0} (s : Runner × Run T) : Type 0 where
    kept : Within s.0

  module _ {T : Type 0} where
    Kept-if : (b : Bool) {x y : Runner × Run T} → Kept x → Kept y → Kept (if b then x else y)
    Kept-if b p q = if-both Kept b p q

    Kept-choose :
        (b : Bool) (m n : Act T) (r : Runner)
        → Kept (m r)
        → Kept (n r)
        → Kept ((if b then m else n) r)
    Kept-choose true m n r p q = p
    Kept-choose false m n r p q = q

  module _ {S T : Type 0} where
    Kept-then :
        (s : Runner × Run S) (next : S → Act T)
        → Kept s
        → ((x : S) (r : Runner) → Within r → Kept (next x r))
        → Kept (and_then s next)
    Kept-then (r, done x) next k h = h x r k.kept
    Kept-then (r, fail f) next k h = record { kept = k.kept }

    -- What gives the runner back as it is.
    Kept-only :
        (res : Run S) (next : S → Act T) (r : Runner)
        → Within r
        → ((x : S) → Kept (next x r))
        → Kept (and_then (r, res) next)
    Kept-only (done x) next r k h = h x
    Kept-only (fail f) next r k h = record { kept = k }

  module _ (engine : Engine) (up : Upstream) (base : Str) where
    module _ (step : Step) (rc : RunContext) where
      http_get-Kept : (r : Runner) → Within r → Kept (http_get engine up base step rc r)
      unfolding http_get
      http_get-Kept r h =
          Kept-choose (not up.has_client) _ _ r (record { kept = h })
            (Kept-choose (is_empty step.args.path || is_empty step.args.mapping) _ _ r
              (record { kept = h })
              (Kept-only (interpolate engine rc step.args.path) _ r h λ path.
                Kept-only (locals_of engine rc (λ key. str "local." ++ key) step.args.local_values)
                  _ r h
                  λ locals. Kept-only (engine.resolve_reference base step.args.mapping) _ r h λ ref.
                    Kept-then (called engine up base up.get ref path locals r) _
                      (record { kept = h }) (λ raw r' h'. record { kept = h' })))

      http_post-Kept : (r : Runner) → Within r → Kept (http_post engine up base step rc r)
      unfolding http_post
      http_post-Kept r h =
          Kept-choose (not up.has_client) _ _ r (record { kept = h })
            (Kept-choose (is_empty step.args.path || is_empty step.args.mapping) _ _ r
              (record { kept = h })
              (Kept-only (interpolate engine rc step.args.path) _ r h λ path.
                Kept-only (engine.resolve_reference base step.args.mapping) _ r h λ ref.
                  Kept-only
                    (locals_of engine rc (λ key. str "http.post local " ++ engine.quote key)
                      step.args.local_values)
                    _ r h
                    λ locals.
                      Kept-then (called engine up base up.post ref path locals r) _
                        (record { kept = h })
                        λ raw r' h'.
                          Kept-only (decode_mapped engine raw) _ r' h'
                            λ rows. record { kept = h' }))

    module _ (call : RunContext → Act Json)
        (each_ : (rc : RunContext) (r : Runner) → Within r → Kept (call rc r)) where
      with_token-Kept :
          (rc : RunContext) (s : Runner × Run Str)
          → Within s.0
          → Kept (with_token engine up base call rc s)
      with_token-Kept rc (r, done token) h =
          each_ (record rc { token = token }) (record r { token = token }) h
      with_token-Kept rc (r, fail f) h = record { kept = h }

      reexchange-Kept :
          (rc : RunContext) (f : Fault) (r : Runner)
          → Within r
          → Kept (reexchange engine up base call rc f r)
      unfolding reexchange
      reexchange-Kept rc f r h = elim (Bool-cases (leb 3 r.reauths)) [
        | inl all_ ↦ rw all_ (record { kept = h })
        | inr left ↦ rw left (
            with_token-Kept rc
              (prepared engine up base (record r {
                reauths = suc r.reauths;
                counters = count_by (str "reauth") 1 r.counters;
              }))
              (ground (arith, h.0, h.1), omega (arith, h.0, h.1)))
      ]

      retried-Kept :
          (rc : RunContext) (s : Runner × Run Json)
          → Within s.0
          → Kept (retried engine up base call rc s)
      retried-Kept rc (r, done v) h = record { kept = h }
      retried-Kept rc (r, fail f) h =
          Kept-if (up.has_auth && status_listed up.reexchange_on f.class) (reexchange-Kept rc f r h)
            (record { kept = h })

      with_reauth-Kept :
          (rc : RunContext) (r : Runner) → Within r → Kept (with_reauth engine up base call rc r)
      unfolding with_reauth
      with_reauth-Kept rc r h = retried-Kept rc (call rc r) (each_ rc r h).kept

    primitive-Kept :
        (step : Step) (rc : RunContext) (r : Runner)
        → Within r
        → Kept (primitive engine up base step rc r)
    unfolding primitive
    primitive-Kept step rc r h =
        Kept-if (str_eq step.uses (str "http.get"))
          (with_reauth-Kept (http_get engine up base step) (http_get-Kept step) rc r h)
          (Kept-if (str_eq step.uses (str "http.post"))
            (with_reauth-Kept (http_post engine up base step) (http_post-Kept step) rc r h)
            (Kept-if (str_eq step.uses (str "join")) (record { kept = h })
              (Kept-if (str_eq step.uses (str "derive")) (record { kept = h })
                (Kept-if (str_eq step.uses (str "dedupe")) (record { kept = h })
                  (Kept-if (str_eq step.uses (str "filter")) (record { kept = h })
                    (Kept-if (str_eq step.uses (str "transform")) (record { kept = h })
                      (Kept-if (str_eq step.uses (str "const")) (record { kept = h })
                        (Kept-if (str_eq step.uses (str "concat")) (record { kept = h })
                          (record { kept = h })))))))))

    record_outcome-Within : (o : StepOutcome) (r : Runner) → Within r → Within (record_outcome o r)
    unfolding record_outcome
    record_outcome-Within o r h = elim (Bool-cases (is_empty o.counter)) [
      | inl none_ ↦ rw none_ h
      | inr some_ ↦ rw some_ h
    ]

    outcome_of_error-Kept :
        (step : Step) (f : Fault) (o : Option StepOutcome) (r : Runner)
        → Within r
        → Kept (outcome_of_error engine up base step f o r)
    outcome_of_error-Kept step f none r h = record { kept = h }
    outcome_of_error-Kept step f (some o) r h = record { kept = record_outcome-Within o r h }

    gathered-Kept :
        (step : Step) (s : Runner × Run Json) → Within s.0 → Kept (gathered engine up base step s)
    unfolding check_context
    gathered-Kept step (r, fail f) h =
        Kept-then (check_context engine up base r) _ (record { kept = h })
          (λ u r' h'. outcome_of_error-Kept step f (outcome_for step f) r' h')
    gathered-Kept step (r, done v) h =
        Kept-if (is_empty_value v)
          (record { kept = record_outcome-Within step.on_empty_output r h }) (record { kept = h })

    iterate-Kept :
        (step : Step) (item : Record) (r : Runner)
        → Within r
        → Kept (iterate engine up base step item r)
    unfolding iterate check_context
    iterate-Kept step item r h =
        Kept-then (check_context engine up base r) _ (record { kept = h })
          λ u r' h'.
            let rc = with_local step.loop_name (Json.object (to_members item)) (own_context r') in
            gathered-Kept step (primitive engine up base step rc r')
              (primitive-Kept step rc r' h').kept

    iterate_all-Kept :
        (step : Step) (items : List Record) (r : Runner)
        → Within r
        → Kept (iterate_all engine up base step items r)
    unfolding iterate_all
    iterate_all-Kept step [] r h = record { kept = h }
    iterate_all-Kept step (item ∷ items) r h =
        Kept-then (iterate engine up base step item r) _ (iterate-Kept step item r h) λ rows r1 h1.
          Kept-then (iterate_all engine up base step items r1) _ (iterate_all-Kept step items r1 h1)
            (λ more r2 h2. record { kept = h2 })

    dispatch-Kept : (step : Step) (r : Runner) → Within r → Kept (dispatch engine up base step r)
    unfolding dispatch
    dispatch-Kept step r h =
        Kept-if (is_empty step.for_each) (primitive-Kept step (own_context r) r h) (
          Kept-if (ltb 1 step.concurrency) (record { kept = h })
            (Kept-if (is_empty step.loop_name) (record { kept = h })
              (Kept-only (collection engine (own_context r) step.for_each) _ r h λ items.
                Kept-then (iterate_all engine up base step items r) _
                  (iterate_all-Kept step items r h) (λ rows r' h'. record { kept = h' }))))

    when_true-Kept :
        (step : Step) (hit : Bool) (r : Runner)
        → Within r
        → Kept (when_true engine up base step hit r)
    unfolding run_step
    when_true-Kept step true r h =
        Kept-then (dispatch engine up base step r) _ (dispatch-Kept step r h)
          (λ v r' h'. record { kept = h' })
    when_true-Kept step false r h =
        Kept-if (is_empty step.other) (record { kept = h }) (record { kept = h })

    run_step-Kept : (step : Step) (r : Runner) → Within r → Kept (run_step engine up base step r)
    unfolding run_step
    run_step-Kept step r h =
        Kept-only (runs engine up base step r) (when_true engine up base step) r h
          (λ hit. when_true-Kept step hit r h)

    named-Kept :
        (step : Step) (s : Runner × Run (StepResult engine up base))
        → Kept s
        → Kept (named engine up base step s)
    named-Kept step (r, res) k = record { kept = k.kept }

    keep_result-Within :
        (step : Step) (res : StepResult engine up base) (r : Runner)
        → Within r
        → Within (keep_result engine up base step res r)
    unfolding keep_result
    keep_result-Within step res r h = elim (Bool-cases res.passed_through) [
      | inl passed ↦ rw passed h
      | inr made ↦ rw made h
    ]

    take_step-Kept : (step : Step) (r : Runner) → Within r → Kept (take_step engine up base step r)
    unfolding take_step check_context
    take_step-Kept step r h =
        Kept-then _ (λ res r'. (keep_result engine up base step res r', done tt))
          (named-Kept step _ (
            Kept-then (check_context engine up base r) (λ _. run_step engine up base step)
              (record { kept = h }) (λ u r' h'. run_step-Kept step r' h')))
          (λ res r' h'. record { kept = keep_result-Within step res r' h' })

    take_steps-Kept :
        (steps : List Step) (r : Runner) → Within r → Kept (take_steps engine up base steps r)
    unfolding take_steps
    take_steps-Kept [] r h = record { kept = h }
    take_steps-Kept (step ∷ steps) r h =
        Kept-then (take_step engine up base step r) _ (take_step-Kept step r h)
          (λ u r' h'. take_steps-Kept steps r' h')

-- A run of steps calls the authenticator for a new credential as often at most as three exceeds
-- the number of exchanges it begins with, if that is at most three: three times for a new run,
-- whether the run succeeds or fails, however often the upstream rejects the credential, and
-- whether the authenticator answers or fails.
pub run_steps-reauths :
    (engine : Engine) (up : Upstream) (base : Str) (steps : List Step) (r : Runner)
    → r.reauths ≤ 3
    → (run_steps engine up base steps r).0.prepares + r.reauths ≤ r.prepares + 3
unfolding run_steps
run_steps-reauths engine up base [] r h = omega (arith, h)
run_steps-reauths engine up base (step ∷ steps) r h =
    let k : Kept r.reauths r.prepares (run_steps engine up base (step ∷ steps) r) =
      Kept-then r.reauths r.prepares (take_steps engine up base (step ∷ steps) r) _
        (take_steps-Kept r.reauths r.prepares engine up base (step ∷ steps) r (h, omega arith))
        (λ u r' h'. record { kept = h' }) in
    omega (arith, k.kept.0, k.kept.1)
