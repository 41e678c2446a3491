-- ===== src/Handler/Outcome.antt =====
-- What becomes of a request: refused, answered, published or sent on.
use network_adapter.Prelude.{
  [], ◌∷◌, ◌++◌, ◌≡◌, refl, ◌∙◌, ap, true, Option, none, some, List, arith, Str, subst, ℕ,
}
use network_adapter.Errors.{GoErr, BecknError, Status}
use network_adapter.Result.{Res, ok, err}
use network_adapter.Json.{Json}
use network_adapter.Model.{Url, Route, StepContext}
use network_adapter.Ports.{Clock, Codec, Step}
use network_adapter.Router.Load.{Table}
use network_adapter.Router.Table.{AllRoutes}
use network_adapter.Router.Invariant.{IsRoutable}
use network_adapter.Router.Choose
use network_adapter.Router.Chosen.{is_destination, route-reaches, reaches, reaches_safely}
use network_adapter.Response.{
  AckSigner, nack_beckn_error, send_nack, sign_body_and_set_header, nack_body_bytes,
}
use network_adapter.Response.Laws.{Answered, no_callback, nack_beckn_error-status}
use network_adapter.Steps.{RouteFinder, run_add_route, strip_base_path, with_route}
use network_adapter.Handler.{
  Module, Served, Request, Transport, run_steps, sign_nack_response, refuse, after_steps, step_ctx,
  serve_http, serve_body, sign_nack_with, next_step,
}

module _ (codec : Codec) (clock : Clock) (h : Module) where
  sign_nack_with-context :
      (ctx : StepContext) (e : GoErr) (o : Option AckSigner)
      → (sign_nack_with codec clock h o ctx e).context ≡ ctx.context
  unfolding sign_body_and_set_header
  sign_nack_with-context ctx e none = refl
  sign_nack_with-context ctx e (some a) = ground arith

  -- The answer to a step's error: the status of the error, the header of the context that the step
  -- left, after the attempt to sign, and nothing sent on or published.
  pub record IsRefusal (ctx : StepContext) (e : GoErr) (s : Served) : Type 0 where
    pub answer : BecknError × ℕ × Status
    pub status : s.reply.status ≡ answer.1
    pub body : s.reply.body ≡ nack_body_bytes codec ctx.context answer.0 answer.2
    pub answered : Answered (no_callback ctx.context e) answer
    pub not_forwarded : s.forwarded ≡ none
    pub not_published : s.published ≡ none

  refuse-IsRefusal : (ctx : StepContext) (e : GoErr) → IsRefusal ctx e (refuse codec clock h ctx e)
  unfolding refuse send_nack sign_nack_response
  refuse-IsRefusal ctx e = record {
    answer = nack_beckn_error ctx.context e;
    status = ap (λ c. (nack_beckn_error c e).1) (sign_nack_with-context ctx e h.ack_signer);
    body =
        ap (λ c. nack_body_bytes codec c (nack_beckn_error c e).0 (nack_beckn_error c e).2)
          (sign_nack_with-context ctx e h.ack_signer);
    answered = nack_beckn_error-status ctx.context e;
    not_forwarded = refl;
    not_published = refl;
  }

  next_step_assoc :
      (f g : StepContext → StepContext × Option GoErr) (r : StepContext × Option GoErr)
      → next_step (λ c. next_step g (f c)) r ≡ next_step g (next_step f r)
  next_step_assoc f g (ctx, some e) = refl
  next_step_assoc f g (ctx, none) = refl

  run_steps-append :
      (xs ys : List Step) (ctx : StepContext)
      → run_steps (xs ++ ys) ctx ≡ next_step (λ c. run_steps ys c) (run_steps xs ctx)
  unfolding run_steps
  run_steps-append [] ys ctx = refl
  run_steps-append (x ∷ xs) ys ctx =
      ap (λ k. next_step k (x ctx)) (λ i c. run_steps-append xs ys c i)
      ∙ next_step_assoc (λ c. run_steps xs c) (λ c. run_steps ys c) (x ctx)

  -- The loop stops at the first step that refuses, whatever steps follow it.
  run_steps-refused :
      (before : List Step) (step : Step) (after : List Step) (ctx ctx1 ctx2 : StepContext)
      (e : GoErr)
      → run_steps before ctx ≡ (ctx1, none)
      → step ctx1 ≡ (ctx2, some e)
      → run_steps (before ++ step ∷ after) ctx ≡ (ctx2, some e)
  unfolding run_steps
  run_steps-refused before step after ctx ctx1 ctx2 e passed refuses =
      rw (run_steps-append before (step ∷ after) ctx) (rw passed (rw refuses refl))

  -- If the body is read, the steps before one pass the request and this one refuses it, then the
  -- later steps decide nothing: the request is answered for this step's error, with 202 for an
  -- AckNoCallbackErr of a v2 context whose chain holds no schema or coded error, and with a status
  -- from 400 to 599 and NACK for every other error, and is neither sent on nor published.
  pub serve_http-IsRefusal :
      (transport : Transport) (r : Request) (body : Str) (before : List Step) (step : Step)
      (after : List Step) (ctx1 ctx2 : StepContext) (e : GoErr)
      → r.body ≡ some body
      → h.steps ≡ before ++ step ∷ after
      → run_steps before (step_ctx codec clock h r body) ≡ (ctx1, none)
      → step ctx1 ≡ (ctx2, some e)
      → (s : Served) × (serve_http codec clock h transport r ≡ some s) × IsRefusal ctx2 e s
  unfolding serve_http after_steps
  serve_http-IsRefusal transport r body before step after ctx1 ctx2 e read steps passed refuses =
      let failed =
        run_steps-refused before step after (step_ctx codec clock h r body) ctx1 ctx2 e passed
          refuses in
      (
        refuse codec clock h ctx2 e,
        ap (λ b. serve_body codec clock h transport r b) read
            ∙ ap (λ x. after_steps codec clock h transport r.host x)
                (ap (λ l. run_steps l (step_ctx codec clock h r body)) steps ∙ failed),
        refuse-IsRefusal ctx2 e,
      )

-- The Route call with a loaded table, in the place of the router plugin.
module _ (url_parse : Str → Res Url) (decode : Str → Res (List (Str × Json))) (table : Table) where
  abbrev pub Answers : RouteFinder → Type 0
  Answers router =
      (u : Url) (body : Str)
      → Choose.route url_parse decode table (some u) body ≡ some (router u body)

  with_route-destination :
      (ctx : StepContext) (q : Str) (m : Res Route)
      → reaches q m ≡ true
      → (with_route ctx m).1 ≡ none
      → (r : Route) × ((with_route ctx m).0.route ≡ some r) × (is_destination q r ≡ true)
  with_route-destination ctx q (err e) d h = cc
  with_route-destination ctx q (ok r) d h = (r, refl, d)

  -- The addRoute step over a loaded table leaves a route that the handler serves, with the query of
  -- the request.
  pub run_add_route-destination :
      (router : RouteFinder) (base_path : Str) (ctx : StepContext)
      → AllRoutes IsRoutable table
      → Answers router
      → (run_add_route router base_path ctx).1 ≡ none
      → (r : Route) × ((run_add_route router base_path ctx).0.route ≡ some r)
        × (is_destination ctx.req_url.raw_query r ≡ true)
  unfolding run_add_route strip_base_path
  run_add_route-destination router base_path ctx loaded answers h =
      let u = strip_base_path ctx.req_url base_path in
      with_route-destination ctx ctx.req_url.raw_query (router u ctx.body)
        (subst (λ o. reaches_safely ctx.req_url.raw_query o ≡ true) (answers u ctx.body)
          (route-reaches url_parse decode table u ctx.body loaded))
        h
