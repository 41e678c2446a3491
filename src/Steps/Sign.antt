-- ===== src/Steps/Sign.antt =====
-- signStep.
use network_adapter.Prelude.{Option, none, some, [], if◌then◌else◌, is_empty, Str}
use network_adapter.Text.{str, has_prefix, trim_prefix}
use network_adapter.Errors.{GoErr, plain, wrapped, new_bad_req_err}
use network_adapter.Result.{Res, ok, err, map_err, ◌>>=◌}
use network_adapter.Auth.{generate_auth_header}
use network_adapter.Model.{
  Role, StepContext, header_set, Keyset, auth_header_subscriber, auth_header_gateway,
}
use network_adapter.Ports.{Signer, KeyManager, PayloadStore, Clock, Codec, Step, extract_field}
use network_adapter.Response.{valid_till}

-- signStep; the payload store may be nil.
pub record SignStep : Type 0 where
  pub signer : Signer
  pub km : KeyManager
  pub payload_store : Option PayloadStore

-- newSignStep
unfoldable pub new_sign_step :
    Option Signer → Option KeyManager → Option PayloadStore → Res SignStep
new_sign_step none km ps = err (plain (str "invalid config: Signer plugin not configured"))
new_sign_step (some s) none ps =
    err (plain (str "invalid config: KeyManager plugin not configured"))
new_sign_step (some s) (some km) ps = ok (record { signer = s; km = km; payload_store = ps })

-- The signature of an entry, and "" for a failed lookup and for no entry.
abbrev stored_signature : Res (Option Str) → Str
stored_signature (err e) = []
stored_signature (ok none) = []
stored_signature (ok (some sig)) = sig

module _ (codec : Codec) where
  -- lookupRequestSignature
  unfoldable pub lookup_request_signature : Option PayloadStore → StepContext → Str
  lookup_request_signature none ctx = []
  lookup_request_signature (some ps) ctx =
      let action = extract_field codec (str "action") ctx.body in
      if has_prefix (str "on_") action
      then stored_signature (ps.get_by_message_id ctx.message_id (trim_prefix (str "on_") action))
      else []

  -- The header under which a role sends its signature.
  unfoldable pub signature_header_name : Role → Str
  signature_header_name Role.gateway = auth_header_gateway
  signature_header_name _ = auth_header_subscriber

  module _ (clock : Clock) (s : SignStep) where
    -- Sign, or SignAck for a solicited callback.
    unfoldable pub made_signature : StepContext → Str → Keyset → Res Str
    made_signature ctx request_sig keys =
        if is_empty request_sig
        then s.signer.sign ctx.body keys.signing_private clock.created_at (valid_till clock)
        else s.signer.sign_ack ctx.body request_sig keys.signing_private clock.created_at
            (valid_till clock)

    abbrev pub signing_key_failed : GoErr → GoErr
    signing_key_failed e = wrapped (str "failed to get signing key: ") e

    abbrev pub signing_failed : GoErr → GoErr
    signing_failed e = wrapped (str "failed to sign request: ") e

    -- The header value that the step sets.
    unfoldable pub signed_header : StepContext → Res Str
    signed_header ctx = do
      keys ← map_err signing_key_failed (s.km.keyset ctx.sub_id)
      let request_sig = lookup_request_signature s.payload_store ctx
      sig ← map_err signing_failed (made_signature ctx request_sig keys)
      ok (
          generate_auth_header ctx.sub_id keys.unique_key_id clock.created_at (valid_till clock) sig
            request_sig)

    abbrev pub set_auth : StepContext → Res Str → StepContext × Option GoErr
    set_auth ctx (err e) = (ctx, some e)
    set_auth ctx (ok value) = (
      record ctx { req_header = header_set (signature_header_name ctx.role) value ctx.req_header },
      none,
    )

    -- (*signStep).Run
    unfoldable pub run_sign : Step
    run_sign ctx =
        if is_empty ctx.sub_id
        then (ctx, some (new_bad_req_err [] (plain (str "subscriberID not set"))))
        else set_auth ctx (signed_header ctx)
