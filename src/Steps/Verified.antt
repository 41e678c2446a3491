-- ===== src/Steps/Verified.antt =====
-- A header that the validation accepts: step.go.
use network_adapter.Prelude.{
  ◌≡◌, refl, ◌⊎◌, inl, inr, ◌≢◌, Bool, true, false, Option, none, [], arith, Str, is_empty,
  str_eq_iff, if◌then◌else◌,
}
use network_adapter.Text.{str}
use network_adapter.Errors.{GoErr}
use network_adapter.Result.{Res, ok, err, Res-cases}
use network_adapter.Auth.{AuthHeader, parse_header}
use network_adapter.Model.{StepContext, header_get, auth_header_subscriber, auth_header_gateway}
use network_adapter.Ports.{Codec}
use network_adapter.Steps.{ValidateSignStep, validate, lookup_callback_request_sig}
use network_adapter.Steps.Validate.{validate_parsed, check_with}

module _ (codec : Codec) (s : ValidateSignStep) where
  -- The answer of the validator for the public key of the sender.
  abbrev pub verdict : StepContext → Str → Str → Bool → Str → Option GoErr
  verdict ctx value request_sig check_identity key =
      if is_empty request_sig
      then s.validator.validate ctx value key check_identity
      else s.validator.validate_ack ctx ctx.body value request_sig key check_identity

  -- A header that parses, names ed25519 and a sender whose keys are found, and that the validator
  -- accepts under the signing key of that sender.
  pub record IsVerified (ctx : StepContext) (value r : Str) (check_identity : Bool) : Type 0 where
    pub parsed : AuthHeader
    pub parses : parse_header value ≡ ok parsed
    pub algorithm : parsed.algorithm ≡ str "ed25519"
    pub keys : Str × Str
    pub known : s.km.lookup_np_keys parsed.subscriber_id parsed.unique_id ≡ ok keys
    pub accepted : verdict ctx value r check_identity keys.0 ≡ none

  check_with-none :
      (ctx : StepContext) (value r : Str) (ci : Bool) (m : Res (Str × Str))
      → check_with codec s ctx value r ci m ≡ none
      → (keys : Str × Str) × (m ≡ ok keys) × (verdict ctx value r ci keys.0 ≡ none)
  check_with-none ctx value r ci (err e) h = cc
  check_with-none ctx value r ci (ok keys) h = (keys, refl, ground arith)

  validate_parsed-none :
      (ctx : StepContext) (value r : Str) (ci : Bool) (p : AuthHeader)
      → validate_parsed codec s ctx value r ci (ok p) ≡ none
      → (p.algorithm ≡ str "ed25519")
        × (check_with codec s ctx value r ci (s.km.lookup_np_keys p.subscriber_id p.unique_id)
            ≡ none)
  validate_parsed-none ctx value r ci p h = ground (arith, str_eq_iff p.algorithm (str "ed25519"))

  pub validate_sound :
      (ctx : StepContext) (value r : Str) (ci : Bool)
      → validate codec s ctx value r ci ≡ none
      → IsVerified ctx value r ci
  unfolding validate
  validate_sound ctx value r ci h = elim (Res-cases (parse_header value)) [
    | inr (e, q) ↦ absurd (ground arith)
    | inl (p, q) ↦
        let (alg, checked) = validate_parsed-none ctx value r ci p (rw q at h) in
        let (keys, known, accepted) =
          check_with-none ctx value r ci (s.km.lookup_np_keys p.subscriber_id p.unique_id)
            checked in
        record {
          parsed = p;
          parses = q;
          algorithm = alg;
          keys = keys;
          known = known;
          accepted = accepted;
        }
  ]

  pub validate_complete :
      (ctx : StepContext) (value r : Str) (ci : Bool)
      → IsVerified ctx value r ci
      → validate codec s ctx value r ci ≡ none
  unfolding validate
  validate_complete ctx value r ci v = ground (
    arith,
    v.parses,
    v.algorithm,
    v.known,
    v.accepted,
    str_eq_iff v.parsed.algorithm (str "ed25519"),
  )

  -- What an accepted request went through.
  pub record IsAuthentic (ctx : StepContext) : Type 0 where
    pub gateway :
        (header_get auth_header_gateway ctx.req_header ≡ [])
        ⊎ IsVerified ctx (header_get auth_header_gateway ctx.req_header) [] false
    pub present : header_get auth_header_subscriber ctx.req_header ≢ []
    pub request_sig : Str
    pub looked_up :
        lookup_callback_request_sig codec s ctx (header_get auth_header_subscriber ctx.req_header)
        ≡ ok request_sig
    pub subscriber :
        IsVerified ctx (header_get auth_header_subscriber ctx.req_header) request_sig true
