-- ===== src/Handler/Signed.antt =====
-- Which replies of ServeHTTP carry a signature over their own body.
use network_adapter.Prelude.{
  ℕ, ◌≡◌, refl, sym, ◌∙◌, ◌⊎◌, inl, inr, true, Option, none, some, Str, All, is_empty, subst,
  if-both, ◌≢◌, str_eq,
}
use network_adapter.Text.{str}
use network_adapter.Errors.{GoErr}
use network_adapter.Result.{Res, ok, err}
use network_adapter.Model.{Url, Route, StepContext, ResponseContext, Header}
use network_adapter.Ports.{Clock, Codec}
use network_adapter.Response.{AckSigner}
use network_adapter.Response.Laws.{IsConsistent}
use network_adapter.Handler.{
  Module, Served, Request, Transport, run_steps, run_response_steps, proxied, relayed, proxy_to,
  dispatch, serve_body, Forwarded, proxy, route, after_steps, step_ctx, serve_http,
}
use network_adapter.Handler.Stable.{
  SameRequest, IsStable, run_steps-SameRequest, CanSign, refuse-IsSigned,
}
use network_adapter.Handler.Answered.{Signed, answer_unrouted-IsSigned, publish_with-IsSigned}

pub some≢none : {f : Forwarded} → some f ≢ none
some≢none = λ e. cc

module _ (codec : Codec) (clock : Clock) (h : Module) where
  pub proxied-forwarded :
      (ctx : StepContext) (f : Forwarded) (m : Res (ℕ × Header × Res Str))
      → (proxied codec clock h ctx f m).forwarded ≡ some f
  proxied-forwarded ctx f (err e) = refl
  proxied-forwarded ctx f (ok (status, header, err e)) = refl
  proxied-forwarded ctx f (ok (status, header, ok body)) = relayed-forwarded ctx f status body (
      run_response_steps h.response_steps ctx
        (some (record { status_code = status; header = header; body = body })))
    where
      relayed-forwarded :
          (ctx : StepContext) (f : Forwarded) (status : ℕ) (body : Str)
          (p : StepContext × Option ResponseContext × Option GoErr)
          → (relayed codec clock h f status body p).forwarded ≡ some f
      relayed-forwarded c f status body (ctx', r, some e) = refl
      relayed-forwarded c f status body (ctx', none, none) = refl
      relayed-forwarded c f status body (ctx', some r, none) = refl

module _ (codec : Codec) (clock : Clock) (h : Module) (a : AckSigner) (base : StepContext) where
  -- A reply is signed unless it is the upstream's.
  abbrev pub SignedOrForwarded : Option Served → Type 0
  SignedOrForwarded none = Unit
  SignedOrForwarded (some s) = (s.forwarded ≡ none) → Signed codec clock h a base s

  proxy_to-SignedOrForwarded :
      (transport : Transport) (host : Str) (ctx : StepContext) (u : Option Url)
      → SignedOrForwarded (proxy_to codec clock h transport host ctx u)
  unfolding proxy
  proxy_to-SignedOrForwarded transport host ctx none = tt
  proxy_to-SignedOrForwarded transport host ctx (some u) =
      λ e. absurd (some≢none (sym (proxied-forwarded codec clock h ctx _ _) ∙ e))

  route-SignedOrForwarded :
      (transport : Transport) (host : Str) (ctx : StepContext) (r : Route)
      → CanSign codec clock h a base
      → SameRequest base ctx
      → is_empty ctx.response_body ≡ true
      → SignedOrForwarded (route codec clock h transport host ctx r)
  unfolding route
  route-SignedOrForwarded transport host ctx r c s empty =
      if-both SignedOrForwarded (str_eq r.target_type (str "url"))
        (proxy_to-SignedOrForwarded transport host ctx r.url)
        (if-both SignedOrForwarded (str_eq r.target_type (str "publisher"))
          (λ e. publish_with-IsSigned codec clock h a base ctx r h.publisher c s empty)
          (λ e. refuse-IsSigned codec clock h a base ctx _ c s))

  -- A step leaves the answer of a step alone only where it leaves the route alone.
  abbrev pub OneAnswer : StepContext → Type 0
  OneAnswer ctx = (ctx.route ≡ none) ⊎ (is_empty ctx.response_body ≡ true)

  dispatch-SignedOrForwarded :
      (transport : Transport) (host : Str) (ctx : StepContext) (o : Option Route)
      → CanSign codec clock h a base
      → SameRequest base ctx
      → (o ≡ none) ⊎ (is_empty ctx.response_body ≡ true)
      → SignedOrForwarded (dispatch codec clock h transport host ctx o)
  dispatch-SignedOrForwarded transport host ctx none c s one =
      λ e. answer_unrouted-IsSigned codec clock h a base ctx c s
  dispatch-SignedOrForwarded transport host ctx (some r) c s (inl e) = cc
  dispatch-SignedOrForwarded transport host ctx (some r) c s (inr e) =
      route-SignedOrForwarded transport host ctx r c s e

  after_steps-SignedOrForwarded :
      (transport : Transport) (host : Str) (p : StepContext × Option GoErr)
      → CanSign codec clock h a base
      → SameRequest base p.0
      → OneAnswer p.0
      → SignedOrForwarded (after_steps codec clock h transport host p)
  unfolding after_steps
  after_steps-SignedOrForwarded transport host (ctx, some e) c s one =
      λ f. refuse-IsSigned codec clock h a base ctx e c s
  after_steps-SignedOrForwarded transport host (ctx, none) c s one =
      dispatch-SignedOrForwarded transport host ctx ctx.route c s one

pub step_ctx-IsConsistent :
    (codec : Codec) (clock : Clock) (h : Module) (r : Request) (body : Str)
    → IsConsistent (step_ctx codec clock h r body)
unfolding step_ctx
step_ctx-IsConsistent codec clock h r body = record { version = refl; msg_id = refl }

-- Every reply that the adapter writes itself, an ACK, an answer or a NACK, carries a Signature
-- header over its own body, if the body is read, the module's only response step is the ACK signer
-- that also signs its NACKs, the request is v2 and names a subscriber, signing works for every body,
-- every step leaves the fields that a signature depends on alone, and the steps do not leave both a
-- route and an answer.
pub serve_http-SignedOrForwarded :
    (codec : Codec) (clock : Clock) (h : Module) (a : AckSigner) (transport : Transport)
    (r : Request) (body : Str)
    → r.body ≡ some body
    → CanSign codec clock h a (step_ctx codec clock h r body)
    → All IsStable h.steps
    → OneAnswer codec clock h a
        (step_ctx codec clock h r body)
        (run_steps h.steps (step_ctx codec clock h r body)).0
    → SignedOrForwarded codec clock h a
        (step_ctx codec clock h r body)
        (serve_http codec clock h transport r)
unfolding serve_http
serve_http-SignedOrForwarded codec clock h a transport r body read c stable one =
    let ctx = step_ctx codec clock h r body in
    subst (λ b. SignedOrForwarded codec clock h a ctx (serve_body codec clock h transport r b))
      (sym read)
      (after_steps-SignedOrForwarded codec clock h a ctx transport r.host (run_steps h.steps ctx) c
        (run_steps-SameRequest h.steps ctx stable) one)
