-- ===== src/Steps/Same.antt =====
-- The validation of two contexts of one message: step.go.
use network_adapter.Prelude.{
  ◌≡◌, refl, ◌⊎◌, inl, inr, ◌≢◌, Bool, true, false, Option, none, some, [], Str, is_empty,
  Bool-cases, sym, ◌∙◌, subst, ap,
}
use network_adapter.Result.{ok}
use network_adapter.Model.{StepContext, header_get, auth_header_subscriber, auth_header_gateway}
use network_adapter.Ports.{Codec, PayloadStore}
use network_adapter.Steps.{ValidateSignStep, lookup_callback_request_sig, validation_context}
use network_adapter.Steps.Validate.{with_store}
use network_adapter.Steps.Verified.{verdict, IsVerified, IsAuthentic}

-- Two contexts agree in what a validation may read of them.
pub record SameMessage (a b : StepContext) : Type 0 where
  pub context : a.context ≡ b.context
  pub method : a.method ≡ b.method
  pub req_url : a.req_url ≡ b.req_url
  pub req_header : a.req_header ≡ b.req_header
  pub body : a.body ≡ b.body
  pub sub_id : a.sub_id ≡ b.sub_id
  pub role : a.role ≡ b.role
  pub protocol_version : a.protocol_version ≡ b.protocol_version
  pub message_id : a.message_id ≡ b.message_id

module _ (codec : Codec) (s : ValidateSignStep) where
  -- The validator gives one verdict for two contexts of one message.
  pub record ReadsMessage : Type 0 where
    pub validates :
        (a b : StepContext)
        → SameMessage a b
        → (value key : Str) (ci : Bool)
        → s.validator.validate a value key ci ≡ s.validator.validate b value key ci
    pub validates_ack :
        (a b : StepContext)
        → SameMessage a b
        → (body value r key : Str) (ci : Bool)
        → s.validator.validate_ack a body value r key ci
          ≡ s.validator.validate_ack b body value r key ci

  module _ (reads : ReadsMessage) (a b : StepContext) (same : SameMessage a b) where
    verdict-same :
        (value r : Str) (ci : Bool) (key : Str)
        → verdict codec s a value r ci key ≡ verdict codec s b value r ci key
    verdict-same value r ci key = elim (Bool-cases (is_empty r)) [
      | inl e ↦ rw e (reads.validates a b same value key ci)
      | inr e ↦ rw e (
          ap (λ x. s.validator.validate_ack a x value r key ci) same.body
          ∙ reads.validates_ack a b same b.body value r key ci)
    ]

    IsVerified-same :
        (value r : Str) (ci : Bool)
        → IsVerified codec s a value r ci
        → IsVerified codec s b value r ci
    IsVerified-same value r ci v = record {
      parsed = v.parsed;
      parses = v.parses;
      algorithm = v.algorithm;
      keys = v.keys;
      known = v.known;
      accepted = sym (verdict-same value r ci v.keys.0) ∙ v.accepted;
    }

    with_store-same :
        (value : Str) (o : Option PayloadStore)
        → with_store codec s o a value ≡ with_store codec s o b value
    with_store-same value none = refl
    with_store-same value (some ps) = λ i.
        with_store codec s (some ps)
          (record b {
            protocol_version = same.protocol_version i;
            message_id = same.message_id i;
            body = same.body i;
          })
          value

    lookup-same :
        (value : Str)
        → lookup_callback_request_sig codec s a value ≡ lookup_callback_request_sig codec s b value
    unfolding lookup_callback_request_sig
    lookup-same value = with_store-same value s.payload_store

    pub IsAuthentic-same : IsAuthentic codec s a → IsAuthentic codec s b
    IsAuthentic-same v = record {
      gateway =
          subst
            (λ h.
              (header_get auth_header_gateway h ≡ [])
              ⊎ IsVerified codec s b (header_get auth_header_gateway h) [] false)
            same.req_header
            (elim v.gateway [
              | inl e ↦ inl e
              | inr x ↦
                  inr (IsVerified-same (header_get auth_header_gateway a.req_header) [] false x)
            ]);
      present = subst (λ h. header_get auth_header_subscriber h ≢ []) same.req_header v.present;
      request_sig = v.request_sig;
      looked_up =
          subst
            (λ h.
              lookup_callback_request_sig codec s b (header_get auth_header_subscriber h)
              ≡ ok v.request_sig)
            same.req_header
            (sym (lookup-same (header_get auth_header_subscriber a.req_header)) ∙ v.looked_up);
      subscriber =
          subst (λ h. IsVerified codec s b (header_get auth_header_subscriber h) v.request_sig true)
            same.req_header
            (IsVerified-same (header_get auth_header_subscriber a.req_header) v.request_sig true
              v.subscriber);
    }

  pub validation_context-SameMessage :
      (ctx : StepContext)
      → SameMessage (validation_context ctx) ctx × SameMessage ctx (validation_context ctx)
  unfolding validation_context
  validation_context-SameMessage ctx = (
    record {
      context = refl;
      method = refl;
      req_url = refl;
      req_header = refl;
      body = refl;
      sub_id = refl;
      role = refl;
      protocol_version = refl;
      message_id = refl;
    },
    record {
      context = refl;
      method = refl;
      req_url = refl;
      req_header = refl;
      body = refl;
      sub_id = refl;
      role = refl;
      protocol_version = refl;
      message_id = refl;
    },
  )
