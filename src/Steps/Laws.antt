-- ===== src/Steps/Laws.antt =====
-- What the signature steps promise.
use network_adapter.Prelude.{
  ◌≡◌, refl, ◌⊎◌, inl, inr, ◌↔◌, ◌≢◌, true, false, Option, none, some, [], ◌∷◌, arith, Str,
  is_empty, Bool-cases,
}
use network_adapter.Errors.{GoErr}
use network_adapter.Result.{Res, ok, err}
use network_adapter.Model.{StepContext, header_get, auth_header_subscriber, auth_header_gateway}
use network_adapter.Ports.{Codec}
use network_adapter.Steps.{
  ValidateSignStep, validate, validate_subscriber, validate_headers, run_validate_sign,
  lookup_callback_request_sig, validation_context,
}
use network_adapter.Steps.Validate.{subscriber_with, subscriber_result, gateway_result}
use network_adapter.Steps.Same.{ReadsMessage, IsAuthentic-same, validation_context-SameMessage}
use network_adapter.Steps.Verified.{IsAuthentic, IsVerified, validate_sound, validate_complete}

not_empty : (v : Str) → is_empty v ≡ false → v ≢ []
not_empty [] h = cc
not_empty (c ∷ v) h = λ e. cc

is_nil : (v : Str) → is_empty v ≡ true → v ≡ []
is_nil [] h = refl
is_nil (c ∷ v) h = cc

empty_of : (v : Str) → v ≢ [] → is_empty v ≡ false
empty_of [] h = absurd (h refl)
empty_of (c ∷ v) h = refl

module _ (codec : Codec) (s : ValidateSignStep) where
  -- The value of a header that is there.
  abbrev Given : StepContext → Str → Type 0
  Given ctx value =
      (value ≢ [])
      × (r : Str) × (lookup_callback_request_sig codec s ctx value ≡ ok r)
      × IsVerified codec s ctx value r true

  subscriber_result-none :
      (ctx : StepContext) (o : Option GoErr) → (subscriber_result codec s ctx o).1 ≡ none → o ≡ none
  subscriber_result-none ctx none h = refl
  subscriber_result-none ctx (some e) h = cc

  subscriber_with-none :
      (ctx : StepContext) (value : Str) (m : Res Str)
      → (subscriber_with codec s ctx value m).1 ≡ none
      → (r : Str) × (m ≡ ok r) × IsVerified codec s ctx value r true
  subscriber_with-none ctx value (err e) h = cc
  subscriber_with-none ctx value (ok r) h = (
    r,
    refl,
    validate_sound codec s ctx value r true
        (subscriber_result-none ctx (validate codec s ctx value r true) h),
  )

  validate_subscriber_sound :
      (ctx : StepContext)
      → (validate_subscriber codec s ctx).1 ≡ none
      → Given ctx (header_get auth_header_subscriber ctx.req_header)
  unfolding validate_subscriber
  validate_subscriber_sound ctx h =
      let value = header_get auth_header_subscriber ctx.req_header in
      elim (Bool-cases (is_empty value)) [
        | inl e ↦ absurd (ground arith)
        | inr e ↦
            let (r, found, v) =
              subscriber_with-none ctx value (lookup_callback_request_sig codec s ctx value)
                (rw e at h) in
            (not_empty value e, r, found, v)
      ]

  validate_subscriber_complete :
      (ctx : StepContext)
      → Given ctx (header_get auth_header_subscriber ctx.req_header)
      → validate_subscriber codec s ctx ≡ (ctx, none)
  unfolding validate_subscriber
  validate_subscriber_complete ctx (present, r, found, v) =
      rw (empty_of (header_get auth_header_subscriber ctx.req_header) present) (
        rw found (
          rw (
            validate_complete codec s ctx (header_get auth_header_subscriber ctx.req_header) r true
              v)))

  gateway_result-none :
      (ctx : StepContext) (o : Option GoErr)
      → (gateway_result codec s ctx o).1 ≡ none
      → (o ≡ none) × ((validate_subscriber codec s ctx).1 ≡ none)
  gateway_result-none ctx none h = (refl, h)
  gateway_result-none ctx (some e) h = cc

  validate_headers_sound :
      (ctx : StepContext) → (validate_headers codec s ctx).1 ≡ none → IsAuthentic codec s ctx
  unfolding validate_headers
  validate_headers_sound ctx h =
      let value = header_get auth_header_gateway ctx.req_header in
      elim (Bool-cases (is_empty value)) [
        | inl e ↦
            let (present, r, found, v) = validate_subscriber_sound ctx (rw e at h) in
            record {
              gateway = inl (is_nil value e);
              present = present;
              request_sig = r;
              looked_up = found;
              subscriber = v;
            }
        | inr e ↦
            let (passed, rest) =
              gateway_result-none ctx (validate codec s ctx value [] false) (rw e at h) in
            let (present, r, found, v) = validate_subscriber_sound ctx rest in
            record {
              gateway = inr (validate_sound codec s ctx value [] false passed);
              present = present;
              request_sig = r;
              looked_up = found;
              subscriber = v;
            }
      ]

  validate_headers_complete :
      (ctx : StepContext) → IsAuthentic codec s ctx → (validate_headers codec s ctx).1 ≡ none
  unfolding validate_headers
  validate_headers_complete ctx v = gateway_complete v.gateway
    where
      done : validate_subscriber codec s ctx ≡ (ctx, none)
      done = validate_subscriber_complete ctx (v.present, v.request_sig, v.looked_up, v.subscriber)

      gateway_complete :
          (header_get auth_header_gateway ctx.req_header ≡ [])
            ⊎ IsVerified codec s ctx (header_get auth_header_gateway ctx.req_header) [] false
          → (validate_headers codec s ctx).1 ≡ none
      gateway_complete (inl e) = rw e (rw done)
      gateway_complete (inr g) = ground (
        arith,
        done,
        validate_complete codec s ctx (header_get auth_header_gateway ctx.req_header) [] false g,
      )

  -- Let the validator's verdict depend on no more of the context than its Go context, the request,
  -- the body, the subscriber, the role, the protocol version and the message id. Then validateSign
  -- passes a request exactly when its Authorization header is there, the stored signature is looked
  -- up if the request is a solicited callback, the header parses, names ed25519 and a sender whose
  -- keys are found, and the validator accepts it for this request under the sender's key, with the
  -- identity check; and its gateway header, if there is one, is verified in the same way, without
  -- the identity check.
  pub run_validate_sign_iff :
      ReadsMessage codec s
      → (ctx : StepContext) → ((run_validate_sign codec s ctx).1 ≡ none) ↔ IsAuthentic codec s ctx
  unfolding run_validate_sign
  run_validate_sign_iff reads ctx =
      let copy = validation_context ctx in
      let (there, back) = validation_context-SameMessage codec s ctx in
      (
        λ h. IsAuthentic-same codec s reads copy ctx there (validate_headers_sound copy h),
        λ v. validate_headers_complete copy (IsAuthentic-same codec s reads ctx copy back v),
      )
