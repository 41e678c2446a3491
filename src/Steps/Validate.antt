-- ===== src/Steps/Validate.antt =====
-- validateSignStep.
use network_adapter.Prelude.{
  Bool, true, false, not, ◌||◌, Option, none, some, [], ◌++◌, if◌then◌else◌, is_empty, Str, str_eq,
}
use network_adapter.Text.{str, trim_prefix}
use network_adapter.Errors.{GoErr, plain, wrapped, new_sign_validation_err}
use network_adapter.Result.{Res, ok, err}
use network_adapter.Version.{is_at_least_v2}
use network_adapter.Auth.{AuthHeader, parse_header, auth_header_includes_request_sig}
use network_adapter.Model.{
  StepContext, header_set, header_get, auth_header_subscriber, auth_header_gateway,
  unauthorized_header_subscriber, unauthorized_header_gateway,
}
use network_adapter.Ports.{SignValidator, KeyManager, PayloadStore, Codec, Step, extract_field}

-- validateSignStep, without its metrics.
pub record ValidateSignStep : Type 0 where
  pub validator : SignValidator
  pub km : KeyManager
  pub payload_store : Option PayloadStore

-- newValidateSignStep
unfoldable pub new_validate_sign_step :
    Option SignValidator → Option KeyManager → Option PayloadStore → Res ValidateSignStep
new_validate_sign_step none km ps =
    err (plain (str "invalid config: SignValidator plugin not configured"))
new_validate_sign_step (some v) none ps =
    err (plain (str "invalid config: KeyManager plugin not configured"))
new_validate_sign_step (some v) (some km) ps =
    ok (record { validator = v; km = km; payload_store = ps })

abbrev unauth_header : StepContext → Str
unauth_header ctx =
    str "Signature realm=\"" ++ (ctx.sub_id ++ str "\",headers=\"(created) (expires) digest\"")

abbrev pub sign_validation_failed : Option GoErr → Option GoErr
sign_validation_failed none = none
sign_validation_failed (some e) = some (wrapped (str "sign validation failed: ") e)

abbrev lookup_text : Str → Str → Str
lookup_text message_id action = str " for message_id=" ++ (message_id ++ (str " action=" ++ action))

-- The signature of the entry of a solicited callback; both failures refuse the request.
abbrev callback_signature : Str → Str → Res (Option Str) → Res Str
callback_signature message_id action (err e) = err (
    wrapped
      (str "validateSign: outbound signature lookup failed"
        ++ (lookup_text message_id action ++ str ": "))
      e)
callback_signature message_id action (ok none) = err (
    plain (
      str "validateSign: no outbound signature on record"
      ++ (lookup_text message_id action ++ str " — callback may be unsolicited or entry expired")))
callback_signature message_id action (ok (some sig)) = ok sig

-- The StepContext that (*validateSignStep).Run makes, with a span in its Go context: the fields that
-- it does not name are zero.
unfoldable pub validation_context : StepContext → StepContext
validation_context ctx = record {
  context = ctx.context;
  method = ctx.method;
  req_url = ctx.req_url;
  req_header = ctx.req_header;
  body = ctx.body;
  route = ctx.route;
  sub_id = ctx.sub_id;
  own_subscriber_id = [];
  role = ctx.role;
  resp_header = ctx.resp_header;
  protocol_version = ctx.protocol_version;
  message_id = ctx.message_id;
  inbound_auth_signature = [];
  is_caller_handler = false;
  response_body = [];
}

module _ (codec : Codec) (s : ValidateSignStep) where
  abbrev callback_lookup : PayloadStore → StepContext → Str → Res Str
  callback_lookup ps ctx action =
      if is_empty action
      then ok []
      else callback_signature ctx.message_id action (ps.get_by_message_id ctx.message_id action)

  abbrev pub with_store : Option PayloadStore → StepContext → Str → Res Str
  with_store none ctx header = ok []
  with_store (some ps) ctx header =
      if not (is_at_least_v2 ctx.protocol_version) || not (auth_header_includes_request_sig header)
      then ok []
      else callback_lookup ps ctx
          (trim_prefix (str "on_") (extract_field codec (str "action") ctx.body))

  -- lookupCallbackRequestSig
  unfoldable pub lookup_callback_request_sig : StepContext → Str → Res Str
  lookup_callback_request_sig ctx header = with_store s.payload_store ctx header

  -- The check with the public key of the sender.
  abbrev pub check_with : StepContext → Str → Str → Bool → Res (Str × Str) → Option GoErr
  check_with ctx value request_sig check_identity (err e) =
      some (wrapped (str "failed to get validation key: ") e)
  check_with ctx value request_sig check_identity (ok keys) = sign_validation_failed (
      if is_empty request_sig
      then s.validator.validate ctx value keys.0 check_identity
      else s.validator.validate_ack ctx ctx.body value request_sig keys.0 check_identity)

  abbrev pub validate_parsed : StepContext → Str → Str → Bool → Res AuthHeader → Option GoErr
  validate_parsed ctx value request_sig check_identity (err e) =
      some (plain (str "failed to parse header"))
  validate_parsed ctx value request_sig check_identity (ok h) =
      if not (str_eq h.algorithm (str "ed25519"))
      then some (
          plain (
            str "unsupported algorithm \"" ++ (h.algorithm ++ str "\": only ed25519 is permitted")))
      else check_with ctx value request_sig check_identity
          (s.km.lookup_np_keys h.subscriber_id h.unique_id)

  -- (*validateSignStep).validate, none where the header is valid.
  unfoldable pub validate : StepContext → Str → Str → Bool → Option GoErr
  validate ctx value request_sig check_identity =
      validate_parsed ctx value request_sig check_identity (parse_header value)

  abbrev pub refused : Str → StepContext → GoErr → StepContext × Option GoErr
  refused name ctx e =
      (record ctx { resp_header = header_set name (unauth_header ctx) ctx.resp_header }, some e)

  abbrev pub subscriber_result : StepContext → Option GoErr → StepContext × Option GoErr
  subscriber_result ctx none = (ctx, none)
  subscriber_result ctx (some e) =
      refused unauthorized_header_subscriber ctx
        (wrapped (str "failed to validate Authorization: ") e)

  abbrev pub subscriber_with : StepContext → Str → Res Str → StepContext × Option GoErr
  subscriber_with ctx value (err e) =
      refused unauthorized_header_subscriber ctx (new_sign_validation_err [] e)
  subscriber_with ctx value (ok request_sig) =
      subscriber_result ctx (validate ctx value request_sig true)

  -- The part of validateHeaders about the subscriber's header.
  unfoldable pub validate_subscriber : StepContext → StepContext × Option GoErr
  validate_subscriber ctx =
      let value = header_get auth_header_subscriber ctx.req_header in
      if is_empty value
      then refused unauthorized_header_subscriber ctx (
          new_sign_validation_err (str "AUT_SIGNATURE_MISSING")
            (plain (str "WWW-Authenticate missing")))
      else subscriber_with ctx value (lookup_callback_request_sig ctx value)

  abbrev pub gateway_result : StepContext → Option GoErr → StepContext × Option GoErr
  gateway_result ctx none = validate_subscriber ctx
  gateway_result ctx (some e) =
      refused unauthorized_header_gateway ctx
        (wrapped (str "failed to validate X-Gateway-Authorization: ") e)

  -- validateHeaders
  unfoldable pub validate_headers : StepContext → StepContext × Option GoErr
  validate_headers ctx =
      let value = header_get auth_header_gateway ctx.req_header in
      if is_empty value
      then validate_subscriber ctx
      else gateway_result ctx (validate ctx value [] false)

  -- (*validateSignStep).Run: the step works on the copy, which shares the two header maps.
  unfoldable pub run_validate_sign : Step
  unfolding validation_context
  run_validate_sign ctx =
      let (ctx', e) = validate_headers (validation_context ctx) in
      (record ctx { req_header = ctx'.req_header; resp_header = ctx'.resp_header }, e)
