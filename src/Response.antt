-- ===== src/Response.antt =====
-- core/module/handler/responsestep.go: the answers, and the steps that sign and verify them.
pub mod Laws
use network_adapter.Prelude.{
  ℕ, ◌+◌, zero, suc, Bool, true, false, not, Option, none, some, List, [], ◌∷◌, ◌++◌, if◌then◌else◌,
  is_empty, Str, get_or, ◌==◌,
}
use network_adapter.Text.{str}
use network_adapter.Errors.{
  GoErr, BecknError, beckn_error, no_details, no_cause, Status, ack, nack, plain, wrapped,
  errors_as, fits_schema, fits_coded, fits_ack_no_callback, fits_errorer, schema_beckn_error,
  coded_beckn_error, http_status, new_bad_req_err,
}
use network_adapter.Result.{Res, ok, err, map_err, ◌>>=◌}
use network_adapter.Version.{is_at_least_v2}
use network_adapter.Auth.{build_signature_header, extract_auth_signature, parse_header}
use network_adapter.Model.{
  GoContext, StepContext, ResponseContext, Header, header_set, header_get, Keyset,
  auth_header_subscriber,
}
use network_adapter.Ports.{
  Signer, KeyManager, SignValidator, Clock, Envelope, v2, pre_v2, Codec, ResponseStep,
}

-- What is written to the client: the status, the header and the body.
pub record Reply : Type 0 where
  pub status : ℕ
  pub header : Header
  pub body : Str

-- isAtLeastV2 of a context.
unfoldable pub ctx_is_at_least_v2 : GoContext → Bool
ctx_is_at_least_v2 c = is_at_least_v2 (get_or c.version [])

-- msgID
unfoldable pub ctx_msg_id : GoContext → Str
ctx_msg_id c = get_or c.msg_id []

-- `fmt.Sprintf("%s", ctx.Value(key))`
abbrev printed_value : Option Str → Str
printed_value none = str "%!s(<nil>)"
printed_value (some v) = v

-- internalServerError
unfoldable pub internal_server_error : GoContext → BecknError
internal_server_error c =
    beckn_error (str "NET_INTERNAL_ERROR")
      (str "Internal server error, MessageID: " ++ printed_value c.msg_id) no_details no_cause

abbrev internal : GoContext → BecknError × ℕ × Status
internal c = (internal_server_error c, 500, nack)

-- The type switch of nackBecknError, from its last case back to its first.
abbrev as_errorer : GoContext → GoErr → BecknError × ℕ × Status
as_errorer c e = elim (errors_as fits_errorer e) [ some b ↦ (b, 400, nack) | none ↦ internal c ]

abbrev as_ack_no_callback : GoContext → GoErr → BecknError × ℕ × Status
as_ack_no_callback c e = elim (errors_as fits_ack_no_callback e) [
  | some a ↦ if ctx_is_at_least_v2 c then (a.1, 202, a.0) else internal c
  | none ↦ as_errorer c e
]

abbrev as_coded : GoContext → GoErr → BecknError × ℕ × Status
as_coded c e = elim (errors_as fits_coded e) [
  | some x ↦ (coded_beckn_error x, http_status x, nack)
  | none ↦ as_ack_no_callback c e
]

-- nackBecknError
unfoldable pub nack_beckn_error : GoContext → GoErr → BecknError × ℕ × Status
nack_beckn_error c e = elim (errors_as fits_schema e) [
  | some es ↦ (schema_beckn_error es, 400, nack)
  | none ↦ as_coded c e
]

-- The answer for a context: the v2 shape for a v2 context, the old one for all others.
unfoldable pub envelope : GoContext → Status → Option BecknError → Envelope
envelope c s e = if ctx_is_at_least_v2 c then v2 s (ctx_msg_id c) e else pre_v2 s e

abbrev json_header : Header → Header
json_header h = header_set (str "Content-Type") (str "application/json") h

module _ (codec : Codec) where
  -- nackBodyBytes
  unfoldable pub nack_body_bytes : GoContext → BecknError → Status → Str
  nack_body_bytes c e s = codec.marshal (envelope c s (some e))

  -- nackBytes
  unfoldable pub nack_bytes : GoContext → GoErr → Str
  nack_bytes c e = let (b, status, s) = nack_beckn_error c e in nack_body_bytes c b s

  -- sendNack with nack: the header is that of the response writer. A failing write is not modelled.
  unfoldable pub send_nack : GoContext → Header → GoErr → Reply
  send_nack c h e =
      let (b, status, s) = nack_beckn_error c e in
      record { status = status; header = json_header h; body = nack_body_bytes c b s }

  -- sendAck
  unfoldable pub send_ack : StepContext → Reply
  send_ack ctx = record {
    status = 200;
    header = json_header ctx.resp_header;
    body = codec.marshal (envelope ctx.context ack none);
  }

  -- sendResponse with writeJSONResponse
  unfoldable pub send_response : StepContext → Reply
  send_response ctx =
      if is_empty ctx.response_body
      then send_ack ctx
      else record { status = 200; header = json_header ctx.resp_header; body = ctx.response_body }

  -- verifyEnvelope
  unfoldable pub verify_envelope : Str → Option GoErr
  verify_envelope body = elim (codec.member_count body) [
    | err e ↦ some (wrapped (str "response body is not a JSON object: ") e)
    | ok n ↦
        if n == 0
        then some (plain (str "response body is an empty JSON object, so it carries no message"))
        else none
  ]

  -- buildAckBody
  unfoldable pub build_ack_body : Str → Str
  build_ack_body message_id = codec.marshal (v2 ack message_id none)

-- ackSignerStep
pub record AckSigner : Type 0 where
  pub signer : Signer
  pub km : KeyManager

-- newAckSignerStep
unfoldable pub new_ack_signer_step : Option Signer → Option KeyManager → Res AckSigner
new_ack_signer_step none km = err (plain (str "invalid config: Signer plugin not configured"))
new_ack_signer_step (some s) none =
    err (plain (str "invalid config: KeyManager plugin not configured"))
new_ack_signer_step (some s) (some km) = ok (record { signer = s; km = km })

-- `time.Now().Add(5 * time.Minute).Unix()`
abbrev pub valid_till : Clock → ℕ
valid_till clock = clock.valid_from + 300

abbrev pub key_failed : GoErr → GoErr
key_failed e = wrapped (str "ackSigner: failed to get signing key: ") e

abbrev pub sign_failed : GoErr → GoErr
sign_failed e = wrapped (str "ackSigner: failed to sign: ") e

module _ (codec : Codec) (clock : Clock) (a : AckSigner) where
  -- computeSigHeader
  unfoldable pub compute_sig_header : StepContext → Str → Res Str
  compute_sig_header ctx body = do
    keys ← map_err key_failed (a.km.keyset ctx.sub_id)
    sig ← map_err sign_failed (
        a.signer.sign_ack body ctx.inbound_auth_signature keys.signing_private clock.created_at
          (valid_till clock))
    ok (
        build_signature_header ctx.sub_id keys.unique_key_id clock.created_at (valid_till clock)
          sig)

  abbrev set_signature : StepContext → Res Str → StepContext × Option GoErr
  set_signature ctx (err e) = (ctx, some e)
  set_signature ctx (ok sig) =
      (record ctx { resp_header = header_set (str "Signature") sig ctx.resp_header }, none)

  -- signBodyAndSetHeader
  unfoldable pub sign_body_and_set_header : StepContext → Str → StepContext × Option GoErr
  sign_body_and_set_header ctx body = set_signature ctx (compute_sig_header ctx body)

  abbrev set_upstream :
      StepContext → ResponseContext → Res Str → StepContext × Option ResponseContext × Option GoErr
  set_upstream ctx r (err e) = (ctx, some r, some e)
  set_upstream ctx r (ok sig) =
      (ctx, some (record r { header = header_set (str "Signature") sig r.header }), none)

  -- The body that the publisher and no-route paths sign.
  unfoldable pub ack_body : StepContext → Str
  ack_body ctx =
      if is_empty ctx.response_body then build_ack_body codec ctx.message_id else ctx.response_body

  abbrev no_upstream :
      StepContext × Option GoErr → StepContext × Option ResponseContext × Option GoErr
  no_upstream (ctx, e) = (ctx, none, e)

  abbrev sign_response :
      StepContext → Option ResponseContext → StepContext × Option ResponseContext × Option GoErr
  sign_response ctx (some r) = set_upstream ctx r (compute_sig_header ctx r.body)
  sign_response ctx none = no_upstream (sign_body_and_set_header ctx (ack_body ctx))

  -- (*ackSignerStep).RunOnResponse
  unfoldable pub sign_ack_step : ResponseStep
  sign_ack_step ctx rctx =
      if not (is_at_least_v2 ctx.protocol_version)
      then (ctx, rctx, none)
      else if is_empty ctx.sub_id
      then (ctx, rctx, some (new_bad_req_err [] (plain (str "subscriberID not set"))))
      else sign_response ctx rctx

-- newValidateAckSignatureStep
unfoldable pub new_validate_ack_signature_step :
    Option SignValidator → Option KeyManager → Res (SignValidator × KeyManager)
new_validate_ack_signature_step none km =
    err (plain (str "invalid config: SignValidator plugin not configured"))
new_validate_ack_signature_step (some v) none =
    err (plain (str "invalid config: KeyManager plugin not configured"))
new_validate_ack_signature_step (some v) (some km) = ok (v, km)

-- How far (*validateAckSignatureStep).RunOnResponse came: it returns nil on each of these.
pub data Trust : Type 0 where
  skipped missing unparsed unknown_key invalid verified : Trust

abbrev judged : Option GoErr → Trust
judged none = verified
judged (some e) = invalid

module _ (v : SignValidator) (km : KeyManager) where
  abbrev with_key : StepContext → ResponseContext → Str → Res (Str × Str) → Trust
  with_key ctx r sig_header (err e) = unknown_key
  with_key ctx r sig_header (ok keys) = judged (
      v.validate_ack ctx r.body sig_header
        (extract_auth_signature (header_get auth_header_subscriber ctx.req_header)) keys.0 false)

  unfoldable pub trust_of : StepContext → Option ResponseContext → Trust
  trust_of ctx none = skipped
  trust_of ctx (some r) =
      if not (is_at_least_v2 ctx.protocol_version)
      then skipped
      else let sig_header = header_get (str "Signature") r.header in
        if is_empty sig_header then missing else elim (parse_header sig_header) [
          | err e ↦ unparsed
          | ok p ↦ with_key ctx r sig_header (km.lookup_np_keys p.subscriber_id p.unique_id)
        ]

  -- (*validateAckSignatureStep).RunOnResponse: what it finds is logged, and nothing is refused.
  unfoldable pub validate_ack_signature_step : ResponseStep
  validate_ack_signature_step ctx rctx = (ctx, rctx, none)
