-- ===== src/Handler/Leak.antt =====
-- What the proxy sends on of the headers that ServeHTTP adds.
use network_adapter.Prelude.{
  ◌≡◌, refl, sym, ◌∙◌, ap, Option, none, some, List, [], Str, subst, str_eq, lookup-insert, get_or,
  if-both, All, is_empty, ◌∷◌, some-injective,
}
use network_adapter.Text.{str}
use network_adapter.Errors.{GoErr}
use network_adapter.Model.{Url, Route, StepContext, Header, header_set, header_get, ResponseContext}
use network_adapter.Ports.{Clock, Codec, Step}
use network_adapter.Response.{Reply, send_response, send_ack, verify_envelope}
use network_adapter.Handler.{
  Module, Served, Request, Transport, run_steps, refuse, route, after_steps, step_ctx, serve_http,
  serve_body, publish_with, proxy, marked_header, dispatch, next_step, Publisher, proxy_to,
  Forwarded, finish_checked, publish, answer_unrouted, finish, run_response_steps, answered,
}
use network_adapter.Handler.Signed.{proxied-forwarded, some≢none}

-- The marker of the module that ServeHTTP adds to the request for its instrumentation.
abbrev pub module_marker : Header → Str
module_marker header = header_get (str "X-Module-Name") header

marker-forwarded_host :
    (host : Str) (header : Header)
    → module_marker (header_set (str "X-Forwarded-Host") host header) ≡ module_marker header
unfolding header_get header_set str_eq
marker-forwarded_host host header =
    ap (λ o. get_or o []) (lookup-insert (str "X-Forwarded-Host") (str "X-Module-Name") host header)

-- The step leaves the marker of the module alone.
abbrev pub KeepsMarker : Step → Type 0
KeepsMarker step =
    (ctx : StepContext) → module_marker (step ctx).0.req_header ≡ module_marker ctx.req_header

next_step-KeepsMarker :
    (rest : StepContext → StepContext × Option GoErr) (b : StepContext)
    (p : StepContext × Option GoErr)
    → ((c : StepContext) → module_marker (rest c).0.req_header ≡ module_marker c.req_header)
    → module_marker p.0.req_header ≡ module_marker b.req_header
    → module_marker (next_step rest p).0.req_header ≡ module_marker b.req_header
next_step-KeepsMarker rest b (c, some e) h k = k
next_step-KeepsMarker rest b (c, none) h k = h c ∙ k

run_steps-KeepsMarker :
    (steps : List Step) (ctx : StepContext)
    → All KeepsMarker steps
    → module_marker (run_steps steps ctx).0.req_header ≡ module_marker ctx.req_header
unfolding run_steps
run_steps-KeepsMarker [] ctx h = refl
run_steps-KeepsMarker (step ∷ steps) ctx (h, hs) =
    next_step-KeepsMarker (λ c. run_steps steps c) ctx (step ctx)
      (λ c. run_steps-KeepsMarker steps c hs) (h ctx)

-- What is sent on carries the marker m.
abbrev pub ForwardsMarker : Str → Option Served → Type 0
ForwardsMarker m none = Unit
ForwardsMarker m (some s) = (f : Forwarded) → s.forwarded ≡ some f → module_marker f.header ≡ m

module _ (codec : Codec) (clock : Clock) (h : Module) where
  marker-marked :
      (header : Header) → module_marker (marked_header codec clock h header) ≡ h.module_name
  unfolding marked_header header_get header_set str_eq
  marker-marked header =
      ap (λ o. get_or o [])
        (lookup-insert (str "X-Role") (str "X-Module-Name") _ _
          ∙ lookup-insert (str "X-Module-Name") (str "X-Module-Name") h.module_name header)

  not_forwarded : (m : Str) (s : Served) → s.forwarded ≡ none → ForwardsMarker m (some s)
  not_forwarded m s e f p = cc

  refuse-forwarded : (ctx : StepContext) (e : GoErr) → (refuse codec clock h ctx e).forwarded ≡ none
  unfolding refuse
  refuse-forwarded ctx e = refl

  answered-forwarded :
      (send : StepContext → Reply) (p : StepContext × Option ResponseContext × Option GoErr)
      → (answered codec clock h send p).forwarded ≡ none
  answered-forwarded send (ctx, r, some e) = refuse-forwarded ctx e
  answered-forwarded send (ctx, r, none) = refl

  finish-forwarded :
      (send : StepContext → Reply) (ctx : StepContext)
      → (finish codec clock h send ctx).forwarded ≡ none
  unfolding finish
  finish-forwarded send ctx = answered-forwarded send (run_response_steps h.response_steps ctx none)

  finish_checked-forwarded :
      (ctx : StepContext) (o : Option GoErr) → (finish_checked codec clock h ctx o).forwarded ≡ none
  finish_checked-forwarded ctx (some e) = refuse-forwarded ctx e
  finish_checked-forwarded ctx none = finish-forwarded (send_response codec) ctx

  answer_unrouted-forwarded :
      (ctx : StepContext) → (answer_unrouted codec clock h ctx).forwarded ≡ none
  unfolding answer_unrouted
  answer_unrouted-forwarded ctx =
      if-both (λ (s : Served). s.forwarded ≡ none) (is_empty ctx.response_body)
        (if-both (λ (s : Served). s.forwarded ≡ none) h.has_provider_steps (refuse-forwarded ctx _)
          (finish-forwarded (send_response codec) ctx))
        (finish_checked-forwarded ctx (verify_envelope codec ctx.response_body))

  publish-forwarded :
      (ctx : StepContext) (r : Route) (o : Option GoErr)
      → (publish codec clock h ctx r o).forwarded ≡ none
  publish-forwarded ctx r (some e) = refuse-forwarded ctx e
  publish-forwarded ctx r none = finish-forwarded (send_ack codec) ctx

  publish_with-forwarded :
      (ctx : StepContext) (r : Route) (o : Option Publisher)
      → (publish_with codec clock h ctx r o).forwarded ≡ none
  publish_with-forwarded ctx r none = refuse-forwarded ctx _
  publish_with-forwarded ctx r (some pb) = publish-forwarded ctx r (pb r.publisher_id ctx.body)

  proxy_to-ForwardsMarker :
      (transport : Transport) (host : Str) (ctx : StepContext) (u : Option Url)
      → ForwardsMarker (module_marker ctx.req_header) (proxy_to codec clock h transport host ctx u)
  unfolding proxy
  proxy_to-ForwardsMarker transport host ctx none = tt
  proxy_to-ForwardsMarker transport host ctx (some u) = λ f e.
      subst (λ x. module_marker x.header ≡ module_marker ctx.req_header)
        (some-injective _ _ (sym (proxied-forwarded codec clock h ctx _ _) ∙ e))
        (marker-forwarded_host host ctx.req_header)

  route-ForwardsMarker :
      (transport : Transport) (host : Str) (ctx : StepContext) (r : Route)
      → ForwardsMarker (module_marker ctx.req_header) (route codec clock h transport host ctx r)
  unfolding route
  route-ForwardsMarker transport host ctx r =
      let m = module_marker ctx.req_header in
      if-both (ForwardsMarker m) (str_eq r.target_type (str "url"))
        (proxy_to-ForwardsMarker transport host ctx r.url)
        (if-both (ForwardsMarker m) (str_eq r.target_type (str "publisher"))
          (not_forwarded m (publish_with codec clock h ctx r h.publisher)
            (publish_with-forwarded ctx r h.publisher))
          (λ f e. absurd (some≢none (sym e ∙ refuse-forwarded ctx _))))

  dispatch-ForwardsMarker :
      (transport : Transport) (host : Str) (ctx : StepContext) (o : Option Route)
      → ForwardsMarker (module_marker ctx.req_header) (dispatch codec clock h transport host ctx o)
  dispatch-ForwardsMarker transport host ctx none =
      not_forwarded _ (answer_unrouted codec clock h ctx) (answer_unrouted-forwarded ctx)
  dispatch-ForwardsMarker transport host ctx (some r) = route-ForwardsMarker transport host ctx r

  after_steps-ForwardsMarker :
      (transport : Transport) (host : Str) (p : StepContext × Option GoErr)
      → ForwardsMarker (module_marker p.0.req_header) (after_steps codec clock h transport host p)
  unfolding after_steps
  after_steps-ForwardsMarker transport host (ctx, some e) =
      not_forwarded _ (refuse codec clock h ctx e) (refuse-forwarded ctx e)
  after_steps-ForwardsMarker transport host (ctx, none) =
      dispatch-ForwardsMarker transport host ctx ctx.route

  step_ctx-marker :
      (r : Request) (body : Str)
      → module_marker (step_ctx codec clock h r body).req_header ≡ h.module_name
  unfolding step_ctx
  step_ctx-marker r body = marker-marked r.header

  serve_body-ForwardsMarker :
      (transport : Transport) (r : Request) (o : Option Str)
      → All KeepsMarker h.steps
      → ForwardsMarker h.module_name (serve_body codec clock h transport r o)
  serve_body-ForwardsMarker transport r none keep = λ f e. absurd (some≢none (sym e))
  serve_body-ForwardsMarker transport r (some body) keep =
      subst (λ m. ForwardsMarker m (serve_body codec clock h transport r (some body)))
        (run_steps-KeepsMarker h.steps (step_ctx codec clock h r body) keep
          ∙ step_ctx-marker r body)
        (after_steps-ForwardsMarker transport r.host
          (run_steps h.steps (step_ctx codec clock h r body)))

  -- Where the steps leave the marker header of ServeHTTP alone, every request that it sends upstream
  -- carries that header with the name of the module.
  pub serve_http-ForwardsMarker :
      (transport : Transport) (r : Request)
      → All KeepsMarker h.steps
      → ForwardsMarker h.module_name (serve_http codec clock h transport r)
  unfolding serve_http
  serve_http-ForwardsMarker transport r keep = serve_body-ForwardsMarker transport r r.body keep
