-- ===== src/Response/Laws.antt =====
-- What the answers of responsestep.go promise.
use network_adapter.Prelude.{
  ℕ, ◌≡◌, refl, sym, ◌∙◌, ap, ◌≤◌, inl, inr, true, Option, none, some, [], arith, Str, is_empty,
  lookup-insert, str_eq, get_or, subst, if◌then◌else◌, ◌&&◌, not, is_some,
}
use network_adapter.Text.{str}
use network_adapter.Errors.{
  GoErr, wrapped, nack, errors_as, Status, BecknError, fits_schema, fits_coded,
  fits_ack_no_callback,
}
use network_adapter.Errors.Laws.{http_status_bounds}
use network_adapter.Result.{ok, Res-cases}
use network_adapter.Version.{is_at_least_v2}
use network_adapter.Model.{GoContext, StepContext, ResponseContext, Header, header_set, header_get}
use network_adapter.Ports.{Clock, Codec}
use network_adapter.Response.{
  Reply, AckSigner, ctx_is_at_least_v2, ctx_msg_id, nack_beckn_error, envelope, send_ack,
  send_response, build_ack_body, compute_sig_header, sign_body_and_set_header, ack_body,
  sign_ack_step,
}

-- The error of a v2 request that is answered with 202: an AckNoCallbackErr of the chain, if no
-- schema or coded error is found in the chain.
abbrev pub no_callback : GoContext → GoErr → Option (Status × BecknError)
no_callback c e =
    if ctx_is_at_least_v2 c
      && (not (is_some (errors_as fits_schema e)) && not (is_some (errors_as fits_coded e)))
    then errors_as fits_ack_no_callback e
    else none

-- An answer to an error: 202 with the status and the error of the AckNoCallbackErr where there is
-- one that counts, and an error status with NACK everywhere else.
abbrev pub Answered : Option (Status × BecknError) → BecknError × ℕ × Status → Type 0
Answered (some a) n = (n.1 ≡ 202) × (n.2 ≡ a.0) × (n.0 ≡ a.1)
Answered none n = (400 ≤ n.1) × (n.1 ≤ 599) × (n.2 ≡ nack)

-- The error of a v2 request whose chain holds an AckNoCallbackErr and no schema or coded error is
-- answered with 202 and the status and the error of that AckNoCallbackErr; every other error, of
-- any version, is answered with a status from 400 to 599 and with NACK.
pub nack_beckn_error-status :
    (c : GoContext) (e : GoErr) → Answered (no_callback c e) (nack_beckn_error c e)
unfolding nack_beckn_error
nack_beckn_error-status c e = grind (arith, http_status_bounds)

-- Wrapping an error with %w changes only its text: the answer stays the same.
pub nack_beckn_error-wrapped :
    (c : GoContext) (t : Str) (e : GoErr) → nack_beckn_error c (wrapped t e) ≡ nack_beckn_error c e
unfolding nack_beckn_error errors_as
nack_beckn_error-wrapped c t e = refl

pub signature-json_header :
    (h : Header)
    → header_get (str "Signature") (header_set (str "Content-Type") (str "application/json") h)
      ≡ header_get (str "Signature") h
unfolding header_get header_set str_eq
signature-json_header h =
    ap (λ o. get_or o [])
      (lookup-insert (str "Content-Type") (str "Signature") (str "application/json") h)

pub signature_set :
    (sig : Str) (h : Header)
    → header_get (str "Signature") (header_set (str "Signature") sig h) ≡ sig
unfolding header_get header_set str_eq
signature_set sig h =
    ap (λ o. get_or o []) (lookup-insert (str "Signature") (str "Signature") sig h)

-- The context values are those of the step context, as stepCtx stores them.
pub record IsConsistent (ctx : StepContext) : Type 0 where
  pub version : ctx.context.version ≡ some ctx.protocol_version
  pub msg_id : ctx.context.msg_id ≡ some ctx.message_id

module _ (codec : Codec) (clock : Clock) (a : AckSigner) where
  -- The Signature header of the reply is the signature of the body of the reply.
  abbrev pub IsSigned : StepContext → Reply → Type 0
  IsSigned ctx reply =
      compute_sig_header codec clock a ctx reply.body
      ≡ ok (header_get (str "Signature") reply.header)

  pub sign_body_and_set_header-eq :
      (ctx : StepContext) (body sig : Str)
      → compute_sig_header codec clock a ctx body ≡ ok sig
      → sign_body_and_set_header codec clock a ctx body
        ≡ (record ctx { resp_header = header_set (str "Signature") sig ctx.resp_header }, none)
  unfolding sign_body_and_set_header
  sign_body_and_set_header-eq ctx body sig h = rw h

  send_response-body :
      (ctx : StepContext) (h : Header)
      → IsConsistent ctx
      → is_at_least_v2 ctx.protocol_version ≡ true
      → (send_response codec (record ctx { resp_header = h })).body ≡ ack_body codec clock a ctx
  unfolding send_response ack_body send_ack envelope ctx_is_at_least_v2 ctx_msg_id build_ack_body
  send_response-body ctx h c new = ground (arith, c.version, c.msg_id)

  send_response-signature :
      (ctx : StepContext)
      → header_get (str "Signature") (send_response codec ctx).header
        ≡ header_get (str "Signature") ctx.resp_header
  unfolding send_response send_ack
  send_response-signature ctx = ground (arith, signature-json_header ctx.resp_header)

  compute_sig_header-IsSigned :
      (ctx : StepContext) (sig : Str)
      → IsConsistent ctx
      → is_at_least_v2 ctx.protocol_version ≡ true
      → compute_sig_header codec clock a ctx (ack_body codec clock a ctx) ≡ ok sig
      → IsSigned ctx (
          send_response codec
            (record ctx { resp_header = header_set (str "Signature") sig ctx.resp_header }))
  compute_sig_header-IsSigned ctx sig c new h =
      let h' = header_set (str "Signature") sig ctx.resp_header in
      ap (compute_sig_header codec clock a ctx) (send_response-body ctx h' c new)
      ∙ (h
          ∙ ap ok (
              sym (
                send_response-signature (record ctx { resp_header = h' })
                ∙ signature_set sig ctx.resp_header)))

  pub sign_ack_step-eq :
      (ctx ctx' : StepContext) (r : Option ResponseContext)
      → is_at_least_v2 ctx.protocol_version ≡ true
      → sign_ack_step codec clock a ctx none ≡ (ctx', r, none)
      → (sig : Str) × (compute_sig_header codec clock a ctx (ack_body codec clock a ctx) ≡ ok sig)
        × (record ctx { resp_header = header_set (str "Signature") sig ctx.resp_header } ≡ ctx')
  unfolding sign_ack_step sign_body_and_set_header
  sign_ack_step-eq ctx ctx' r new h =
      elim (Res-cases (compute_sig_header codec clock a ctx (ack_body codec clock a ctx))) [
        | inl (sig, p) ↦ (sig, p, ground arith)
        | inr (e, p) ↦ absurd (ground arith)
      ]

  -- Whether the response step signs the ACK or an answer of a step, the body that it signs is the
  -- one that sendResponse writes, and the signature that it sets stands on that reply.
  pub sign_ack_step-IsSigned :
      (ctx ctx' : StepContext) (r : Option ResponseContext)
      → IsConsistent ctx
      → is_at_least_v2 ctx.protocol_version ≡ true
      → sign_ack_step codec clock a ctx none ≡ (ctx', r, none)
      → IsSigned ctx (send_response codec ctx')
  sign_ack_step-IsSigned ctx ctx' r c new h =
      let (sig, p, q) = sign_ack_step-eq ctx ctx' r new h in
      subst (λ x. IsSigned ctx (send_response codec x)) q
        (compute_sig_header-IsSigned ctx sig c new p)

-- With no answer of a step, sendResponse is sendAck.
pub send_response-empty :
    (codec : Codec) (ctx : StepContext)
    → is_empty ctx.response_body ≡ true
    → send_response codec ctx ≡ send_ack codec ctx
unfolding send_response
send_response-empty codec ctx e = rw e
