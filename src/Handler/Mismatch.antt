-- ===== src/Handler/Mismatch.antt =====
-- The publisher path of route, where a step left an answer of its own.
use network_adapter.Prelude.{
  ◌≡◌, sym, ◌∙◌, ap, true, false, Option, none, arith, Str, is_empty, subst,
}
use network_adapter.Text.{str}
use network_adapter.Result.{ok}
use network_adapter.Version.{is_at_least_v2}
use network_adapter.Model.{StepContext, ResponseContext, header_set, header_get}
use network_adapter.Ports.{Clock, Codec}
use network_adapter.Response.{
  AckSigner, Reply, send_ack, build_ack_body, ack_body, compute_sig_header, sign_ack_step, envelope,
  ctx_is_at_least_v2, ctx_msg_id,
}
use network_adapter.Response.Laws.{
  IsConsistent, sign_ack_step-eq, signature-json_header, signature_set,
}

module _ (codec : Codec) (clock : Clock) (a : AckSigner) where
  ack_body-answer :
      (ctx : StepContext)
      → is_empty ctx.response_body ≡ false
      → ack_body codec clock a ctx ≡ ctx.response_body
  unfolding ack_body
  ack_body-answer ctx e = rw e

  -- What the reply of sendAck says, under the header that carries sig.
  abbrev pub SignsAnother : StepContext → Reply → Type 0
  SignsAnother ctx reply =
      (compute_sig_header codec clock a ctx ctx.response_body
        ≡ ok (header_get (str "Signature") reply.header))
      × (reply.body ≡ build_ack_body codec ctx.message_id)

  signed_ack-SignsAnother :
      (ctx : StepContext) (sig : Str)
      → IsConsistent ctx
      → is_at_least_v2 ctx.protocol_version ≡ true
      → is_empty ctx.response_body ≡ false
      → compute_sig_header codec clock a ctx (ack_body codec clock a ctx) ≡ ok sig
      → SignsAnother ctx (
          send_ack codec
            (record ctx { resp_header = header_set (str "Signature") sig ctx.resp_header }))
  unfolding send_ack envelope ctx_is_at_least_v2 ctx_msg_id build_ack_body
  signed_ack-SignsAnother ctx sig c new answered p = (
    ap (compute_sig_header codec clock a ctx) (sym (ack_body-answer ctx answered))
        ∙ (p ∙ ap ok (sym (signature-json_header _ ∙ signature_set sig ctx.resp_header))),
    ground (arith, c.version, c.msg_id),
  )

  -- Where a step left an answer and the request is published, the Signature header of the reply is
  -- the signature of that answer, while the body of the reply is the generated ACK.
  pub send_ack-SignsAnother :
      (ctx ctx' : StepContext) (r : Option ResponseContext)
      → IsConsistent ctx
      → is_at_least_v2 ctx.protocol_version ≡ true
      → is_empty ctx.response_body ≡ false
      → sign_ack_step codec clock a ctx none ≡ (ctx', r, none)
      → SignsAnother ctx (send_ack codec ctx')
  send_ack-SignsAnother ctx ctx' r c new answered h =
      let (sig, p, q) = sign_ack_step-eq codec clock a ctx ctx' r new h in
      subst (λ x. SignsAnother ctx (send_ack codec x)) q
        (signed_ack-SignsAnother ctx sig c new answered p)
