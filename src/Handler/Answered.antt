-- ===== src/Handler/Answered.antt =====
-- The signature of an answer that a module gives itself.
use network_adapter.Prelude.{
  ◌≡◌, refl, sym, ◌∙◌, ap, true, Option, none, some, arith, is_empty, subst, if-both,
}
use network_adapter.Errors.{GoErr}
use network_adapter.Version.{is_at_least_v2}
use network_adapter.Model.{Route, StepContext, ResponseContext}
use network_adapter.Ports.{Clock, Codec}
use network_adapter.Response.{
  Reply, AckSigner, send_ack, send_response, sign_body_and_set_header, sign_ack_step,
  verify_envelope,
}
use network_adapter.Response.Laws.{
  IsSigned, IsConsistent, sign_ack_step-IsSigned, send_response-empty,
}
use network_adapter.Handler.{
  Module, Served, run_response_steps, answered, next_response, finish_checked, publish,
  publish_with, Publisher, finish, answer_unrouted,
}
use network_adapter.Handler.Stable.{
  SameRequest, SameRequest-trans, CanSign, compute-same, refuse-IsSigned,
}

module _ (codec : Codec) (clock : Clock) (h : Module) (a : AckSigner) (base : StepContext) where
  sign_ack_step-SameRequest :
      (ctx : StepContext) → SameRequest ctx (sign_ack_step codec clock a ctx none).0
  unfolding sign_ack_step sign_body_and_set_header
  sign_ack_step-SameRequest ctx = ground arith

  sign_ack_step-response_body :
      (ctx : StepContext)
      → (sign_ack_step codec clock a ctx none).0.response_body ≡ ctx.response_body
  unfolding sign_ack_step sign_body_and_set_header
  sign_ack_step-response_body ctx = ground arith

  -- The way in which the answer is sent writes what the response step signed.
  abbrev SendsSigned : (StepContext → Reply) → StepContext → Type 0
  SendsSigned send ctx =
      (ctx' : StepContext) (r : Option ResponseContext)
      → sign_ack_step codec clock a ctx none ≡ (ctx', r, none)
      → IsSigned codec clock a base (send ctx')

  answered-IsSigned :
      (send : StepContext → Reply) (ctx : StepContext)
      (p : StepContext × Option ResponseContext × Option GoErr)
      → CanSign codec clock h a base
      → SendsSigned send ctx
      → SameRequest base p.0
      → sign_ack_step codec clock a ctx none ≡ p
      → IsSigned codec clock a base
          (answered codec clock h send (next_response (λ c q. (c, q, none)) p)).reply
  answered-IsSigned send ctx (ctx', r, some e) c sends s q =
      refuse-IsSigned codec clock h a base ctx' e c s
  answered-IsSigned send ctx (ctx', r, none) c sends s q = sends ctx' r q

  finish-IsSigned :
      (send : StepContext → Reply) (ctx : StepContext)
      → CanSign codec clock h a base
      → SameRequest base ctx
      → SendsSigned send ctx
      → IsSigned codec clock a base (finish codec clock h send ctx).reply
  unfolding finish run_response_steps
  finish-IsSigned send ctx c s sends =
      subst
        (λ l.
          IsSigned codec clock a base
            (answered codec clock h send (run_response_steps l ctx none)).reply)
        (sym c.responds)
        (answered-IsSigned send ctx (sign_ack_step codec clock a ctx none) c sends
          (SameRequest-trans s (sign_ack_step-SameRequest ctx)) refl)

  SameRequest-IsConsistent :
      {ctx : StepContext} → SameRequest base ctx → IsConsistent base → IsConsistent ctx
  SameRequest-IsConsistent {ctx} s c = ground arith

  send_response-SendsSigned :
      (ctx : StepContext)
      → CanSign codec clock h a base
      → SameRequest base ctx
      → SendsSigned (send_response codec) ctx
  send_response-SendsSigned ctx c s ctx' r q =
      sym (compute-same codec clock h a base (send_response codec ctx').body s)
      ∙ sign_ack_step-IsSigned codec clock a ctx ctx' r (SameRequest-IsConsistent s c.consistent)
          (ap is_at_least_v2 s.protocol_version ∙ c.new) q

  send_ack-SendsSigned :
      (ctx : StepContext)
      → CanSign codec clock h a base
      → SameRequest base ctx
      → is_empty ctx.response_body ≡ true
      → SendsSigned (send_ack codec) ctx
  send_ack-SendsSigned ctx c s empty ctx' r q =
      subst (λ reply. IsSigned codec clock a base reply)
        (no_answer ctx' (ap (λ p. p.0.response_body) (sym q) ∙ sign_ack_step-response_body ctx))
        (send_response-SendsSigned ctx c s ctx' r q)
    where
      no_answer :
          (c' : StepContext)
          → c'.response_body ≡ ctx.response_body
          → send_response codec c' ≡ send_ack codec c'
      no_answer c' e = send_response-empty codec c' (ap is_empty e ∙ empty)

  abbrev pub Signed : Served → Type 0
  Signed s = IsSigned codec clock a base s.reply

  finish_checked-IsSigned :
      (ctx : StepContext) (o : Option GoErr)
      → CanSign codec clock h a base
      → SameRequest base ctx
      → Signed (finish_checked codec clock h ctx o)
  finish_checked-IsSigned ctx (some e) c s = refuse-IsSigned codec clock h a base ctx e c s
  finish_checked-IsSigned ctx none c s =
      finish-IsSigned (send_response codec) ctx c s (send_response-SendsSigned ctx c s)

  pub answer_unrouted-IsSigned :
      (ctx : StepContext)
      → CanSign codec clock h a base
      → SameRequest base ctx
      → Signed (answer_unrouted codec clock h ctx)
  unfolding answer_unrouted
  answer_unrouted-IsSigned ctx c s =
      if-both Signed (is_empty ctx.response_body)
        (if-both Signed h.has_provider_steps (refuse-IsSigned codec clock h a base ctx _ c s)
          (finish_checked-IsSigned ctx none c s))
        (finish_checked-IsSigned ctx (verify_envelope codec ctx.response_body) c s)

  publish-IsSigned :
      (ctx : StepContext) (r : Route) (o : Option GoErr)
      → CanSign codec clock h a base
      → SameRequest base ctx
      → is_empty ctx.response_body ≡ true
      → Signed (publish codec clock h ctx r o)
  publish-IsSigned ctx r (some e) c s empty = refuse-IsSigned codec clock h a base ctx e c s
  publish-IsSigned ctx r none c s empty =
      finish-IsSigned (send_ack codec) ctx c s (send_ack-SendsSigned ctx c s empty)

  pub publish_with-IsSigned :
      (ctx : StepContext) (r : Route) (o : Option Publisher)
      → CanSign codec clock h a base
      → SameRequest base ctx
      → is_empty ctx.response_body ≡ true
      → Signed (publish_with codec clock h ctx r o)
  publish_with-IsSigned ctx r none c s empty = refuse-IsSigned codec clock h a base ctx _ c s
  publish_with-IsSigned ctx r (some pb) c s empty =
      publish-IsSigned ctx r (pb r.publisher_id ctx.body) c s empty
