-- ===== src/Tests/Serving.antt =====
-- The handler at concrete inputs.
use network_adapter.Prelude.{◌≡◌, refl, false, none, some, List, [], ◌∷◌, ◌++◌, inl, str_eq}
use network_adapter.Text.{str}
use network_adapter.Errors.{plain}
use network_adapter.Version.{is_at_least_v2}
use network_adapter.Model.{Role, Route, StepContext}
use network_adapter.Ports.{Step, extract_field}
use network_adapter.Auth.{build_signature_header}
use network_adapter.Response.{compute_sig_header, sign_ack_step}
use network_adapter.Handler.{Module, Served, run_steps, step_ctx, serve_http, request_sub_id}
use network_adapter.Handler.Stable.{IsStable, CanSign}
use network_adapter.Handler.Signed.{
  SignedOrForwarded, serve_http-SignedOrForwarded, step_ctx-IsConsistent,
}
use network_adapter.Handler.Outcome.{IsRefusal, serve_http-IsRefusal}
use network_adapter.Handler.Leak.{ForwardsMarker, serve_http-ForwardsMarker}
use network_adapter.Tests.Plugins.{codec, clock, ack_signer, a_request, transport, some_url}

abbrev up_route : Route
up_route = record { target_type = str "url"; publisher_id = []; url = some some_url }

abbrev passing : Step
passing ctx = (ctx, none)

abbrev routing : Step
routing ctx = (record ctx { route = some up_route }, none)

abbrev refusing : Step
refusing ctx = (ctx, some (plain (str "no")))

abbrev module_with : List Step → Module
module_with steps = record {
  steps = steps;
  response_steps = sign_ack_step codec clock ack_signer ∷ [];
  ack_signer = some ack_signer;
  has_provider_steps = false;
  subscriber_id = str "b.example";
  role = Role.bpp;
  module_name = str "bppReceiver";
  publisher = none;
}

can_sign :
    CanSign codec clock
      (module_with (passing ∷ []))
      ack_signer
      (step_ctx codec clock (module_with (passing ∷ [])) a_request (str "{}"))
unfolding step_ctx extract_field is_at_least_v2 request_sub_id compute_sig_header str_eq
can_sign = record {
  signer = refl;
  responds = refl;
  new = refl;
  named = refl;
  consistent = step_ctx-IsConsistent codec clock (module_with (passing ∷ [])) a_request (str "{}");
  works = λ body.
      (build_signature_header (str "b.example") (str "k1") 1000 1301 (str "YWNr" ++ body), refl);
}

stable : IsStable passing
stable ctx = record {
  context = refl;
  protocol_version = refl;
  message_id = refl;
  sub_id = refl;
  inbound = refl;
}

serve_http-SignedOrForwarded_example :
    SignedOrForwarded codec clock
      (module_with (passing ∷ []))
      ack_signer
      (step_ctx codec clock (module_with (passing ∷ [])) a_request (str "{}"))
      (serve_http codec clock (module_with (passing ∷ [])) transport a_request)
unfolding run_steps step_ctx
serve_http-SignedOrForwarded_example =
    serve_http-SignedOrForwarded codec clock (module_with (passing ∷ [])) ack_signer transport
      a_request (str "{}") refl can_sign (stable, tt) (inl refl)

abbrev at_start : StepContext
at_start =
    step_ctx codec clock (module_with (routing ∷ refusing ∷ passing ∷ [])) a_request (str "{}")

abbrev routed : StepContext
routed = (routing at_start).0

serve_http-IsRefusal_example :
    (s : Served) × (serve_http codec clock
        (module_with (routing ∷ refusing ∷ passing ∷ []))
        transport
        a_request
      ≡ some s)
    × IsRefusal codec clock
        (module_with (routing ∷ refusing ∷ passing ∷ []))
        routed
        (plain (str "no"))
        s
unfolding run_steps
serve_http-IsRefusal_example =
    serve_http-IsRefusal codec clock (module_with (routing ∷ refusing ∷ passing ∷ [])) transport
      a_request (str "{}") (routing ∷ []) refusing (passing ∷ []) routed routed (plain (str "no"))
      refl refl refl refl

serve_http-ForwardsMarker_example :
    ForwardsMarker
      (str "bppReceiver")
      (serve_http codec clock (module_with (routing ∷ [])) transport a_request)
serve_http-ForwardsMarker_example =
    serve_http-ForwardsMarker codec clock (module_with (routing ∷ [])) transport a_request
      ((λ ctx. refl), tt)
