-- ===== src/Handler/Stable.antt =====
-- What the steps of a module leave alone, and the signature of a NACK.
use network_adapter.Prelude.{
  ◌≡◌, sym, ◌∙◌, ap, true, false, Option, none, some, List, [], ◌∷◌, arith, Str, All, is_empty,
  subst,
}
use network_adapter.Text.{str}
use network_adapter.Errors.{GoErr}
use network_adapter.Result.{ok}
use network_adapter.Version.{is_at_least_v2}
use network_adapter.Model.{StepContext, header_set}
use network_adapter.Ports.{Clock, Codec, Step}
use network_adapter.Response.{AckSigner, send_nack, nack_bytes, compute_sig_header, sign_ack_step}
use network_adapter.Response.Laws.{
  IsSigned, IsConsistent, sign_body_and_set_header-eq, signature-json_header, signature_set,
}
use network_adapter.Handler.{
  Module, run_steps, sign_nack_response, refuse, next_step, sign_nack_with,
}

-- What the steps leave as it is: all that a signature depends on.
pub record SameRequest (c d : StepContext) : Type 0 where
  pub context : d.context ≡ c.context
  pub protocol_version : d.protocol_version ≡ c.protocol_version
  pub message_id : d.message_id ≡ c.message_id
  pub sub_id : d.sub_id ≡ c.sub_id
  pub inbound : d.inbound_auth_signature ≡ c.inbound_auth_signature

pub SameRequest-trans : {b c d : StepContext} → SameRequest b c → SameRequest c d → SameRequest b d
SameRequest-trans h k = ground arith

abbrev pub IsStable : Step → Type 0
IsStable step = (ctx : StepContext) → SameRequest ctx (step ctx).0

next_step-SameRequest :
    (rest : StepContext → StepContext × Option GoErr) (b : StepContext)
    (p : StepContext × Option GoErr)
    → ((c : StepContext) → SameRequest c (rest c).0)
    → SameRequest b p.0
    → SameRequest b (next_step rest p).0
next_step-SameRequest rest b (c, some e) h k = k
next_step-SameRequest rest b (c, none) h k = SameRequest-trans k (h c)

pub run_steps-SameRequest :
    (steps : List Step) (ctx : StepContext)
    → All IsStable steps
    → SameRequest ctx (run_steps steps ctx).0
unfolding run_steps
run_steps-SameRequest [] ctx h = ground arith
run_steps-SameRequest (step ∷ steps) ctx (h, hs) =
    next_step-SameRequest (λ c. run_steps steps c) ctx (step ctx)
      (λ c. run_steps-SameRequest steps c hs) (h ctx)

module _ (codec : Codec) (clock : Clock) (h : Module) (a : AckSigner) (base : StepContext) where
  -- A receiver of a v2 request that can sign every answer to it.
  pub record CanSign : Type 0 where
    pub signer : h.ack_signer ≡ some a
    pub responds : h.response_steps ≡ sign_ack_step codec clock a ∷ []
    pub new : is_at_least_v2 base.protocol_version ≡ true
    pub named : is_empty base.sub_id ≡ false
    pub consistent : IsConsistent base
    pub works : (body : Str) → (sig : Str) × (compute_sig_header codec clock a base body ≡ ok sig)

  pub compute-same :
      {ctx : StepContext} (body : Str)
      → SameRequest base ctx
      → compute_sig_header codec clock a ctx body ≡ compute_sig_header codec clock a base body
  unfolding compute_sig_header
  compute-same {ctx} body s = rw (s.sub_id, s.inbound)

  send_nack-IsSigned :
      (ctx : StepContext) (e : GoErr) (sig : Str)
      → compute_sig_header codec clock a base (nack_bytes codec ctx.context e) ≡ ok sig
      → IsSigned codec clock a base
          (send_nack codec ctx.context (header_set (str "Signature") sig ctx.resp_header) e)
  unfolding send_nack nack_bytes
  send_nack-IsSigned ctx e sig p =
      p ∙ ap ok (sym (signature-json_header _ ∙ signature_set sig ctx.resp_header))

  sign_nack_with-eq :
      (ctx : StepContext) (e : GoErr)
      → CanSign
      → SameRequest base ctx
      → (sig : Str) × (compute_sig_header codec clock a base (nack_bytes codec ctx.context e)
          ≡ ok sig)
        × (sign_nack_with codec clock h (some a) ctx e
            ≡ record ctx { resp_header = header_set (str "Signature") sig ctx.resp_header })
  sign_nack_with-eq ctx e c s =
      let body = nack_bytes codec ctx.context e in
      let (sig, p) = c.works body in
      (
        sig,
        p,
        ground (
          arith,
          c.new,
          c.named,
          s.protocol_version,
          s.sub_id,
          sign_body_and_set_header-eq codec clock a ctx body sig (compute-same body s ∙ p),
        ),
      )

  -- A NACK that the handler writes is signed.
  pub refuse-IsSigned :
      (ctx : StepContext) (e : GoErr)
      → CanSign
      → SameRequest base ctx
      → IsSigned codec clock a base (refuse codec clock h ctx e).reply
  unfolding refuse sign_nack_response
  refuse-IsSigned ctx e c s =
      let (sig, p, q) = sign_nack_with-eq ctx e c s in
      subst
        (λ o. IsSigned codec clock a base (
          send_nack codec (sign_nack_with codec clock h o ctx e).context
            (sign_nack_with codec clock h o ctx e).resp_header e))
        (sym c.signer)
        (subst (λ x. IsSigned codec clock a base (send_nack codec x.context x.resp_header e))
          (sym q) (send_nack-IsSigned ctx e sig p))
