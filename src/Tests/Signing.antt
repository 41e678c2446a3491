-- ===== src/Tests/Signing.antt =====
-- The headers, the errors and the answers at concrete inputs.
use network_adapter.Prelude.{
  ◌≡◌, refl, false, none, some, List, [], ◌∷◌, ◌++◌, arith, Str, ◌↔◌, insert, Option, ap,
  if◌then◌else◌, is_empty,
}
use network_adapter.Text.{str, is_space}
use network_adapter.Errors.{plain, BecknError, new_coded_error_with_cause, no_cause, GoErr}
use network_adapter.Result.{ok}
use network_adapter.Version.{is_at_least_v2}
use network_adapter.Model.{StepContext, GoContext, header_set}
use network_adapter.Auth.{
  generate_auth_header, build_signature_header, parse_header, extract_auth_signature,
  auth_header_includes_request_sig,
}
use network_adapter.Response.{
  nack_beckn_error, send_response, send_ack, sign_ack_step, sign_body_and_set_header,
  compute_sig_header, ack_body, build_ack_body,
}
use network_adapter.Response.Laws.{
  Answered, no_callback, nack_beckn_error-status, IsSigned, sign_ack_step-IsSigned,
}
use network_adapter.Steps.{
  made_signature, lookup_request_signature, run_validate_sign, signature_header_name,
  ValidateSignStep,
}
use network_adapter.Steps.Verified.{IsAuthentic}
use network_adapter.Steps.Same.{ReadsMessage}
use network_adapter.Steps.Laws.{run_validate_sign_iff}
use network_adapter.Steps.Handshake.{Signs, sent, run_sign-read}
use network_adapter.Handler.Mismatch.{SignsAnother, send_ack-SignsAnother}
use network_adapter.Tests.Plugins.{
  codec, clock, keys, sign_step, validate_step, ack_signer, a_context,
}

abbrev sub : Str
sub = str "b.example"

abbrev header : Str
header = generate_auth_header sub (str "k1") 1000 1301 (str "c2ln") []

signs : Signs codec clock sign_step a_context keys (str "c2ln")
unfolding is_space made_signature lookup_request_signature signature_header_name
signs = record {
  named = refl;
  subscriber_part = (ground arith, ground arith, ground arith);
  key_part = (ground arith, ground arith, ground arith);
  keyset = refl;
  made = refl;
  plain_sig = ground arith;
  sender = refl;
}

run_sign-read_example :
    (parse_header (sent codec clock sign_step a_context)
      ≡ ok (record { subscriber_id = sub; unique_id = str "k1"; algorithm = str "ed25519" }))
    × (extract_auth_signature (sent codec clock sign_step a_context) ≡ str "c2ln")
    × (auth_header_includes_request_sig (sent codec clock sign_step a_context) ≡ false)
unfolding lookup_request_signature
run_sign-read_example = run_sign-read codec clock sign_step a_context keys (str "c2ln") signs

abbrev judge : Str → Option GoErr
judge body = if is_empty body then some (plain (str "no body")) else none

-- A validator that reads the body of the context.
abbrev reading_step : ValidateSignStep
reading_step = record {
  validator = record {
    validate = λ ctx value key ci. judge ctx.body;
    validate_ack = λ ctx body value request key ci. judge body;
  };
  km = validate_step.km;
  payload_store = none;
}

reading : ReadsMessage codec reading_step
reading = record {
  validates = λ a b same value key ci. ap judge same.body;
  validates_ack = λ a b same body value r key ci. refl;
}

abbrev signed_request : StepContext
signed_request = record a_context { req_header = (str "Authorization", header) ∷ [] }

run_validate_sign_iff_example :
    ((run_validate_sign codec reading_step signed_request).1 ≡ none)
    ↔ IsAuthentic codec reading_step signed_request
run_validate_sign_iff_example = run_validate_sign_iff codec reading_step reading signed_request

abbrev v2_context : GoContext
v2_context = record { version = some (str "2.0.0"); msg_id = some (str "m1") }

nack_beckn_error-status_example :
    Answered
      (no_callback v2_context (plain (str "x")))
      (nack_beckn_error v2_context (plain (str "x")))
nack_beckn_error-status_example = nack_beckn_error-status v2_context (plain (str "x"))

abbrev signed : StepContext
signed = record a_context {
  resp_header =
      (
        str "Signature",
        build_signature_header sub (str "k1") 1000 1301 (str "YWNr" ++ str "{v2 m1}"),
      )
      ∷ [];
}

sign_ack_step-IsSigned_example :
    IsSigned codec clock ack_signer a_context (send_response codec signed)
unfolding sign_ack_step sign_body_and_set_header compute_sig_header ack_body build_ack_body
    header_set insert is_at_least_v2
sign_ack_step-IsSigned_example =
    sign_ack_step-IsSigned codec clock ack_signer a_context signed none
      (record { version = refl; msg_id = refl }) refl refl

abbrev answered : StepContext
answered = record a_context { response_body = str "{catalogs}" }

abbrev signed_answer : StepContext
signed_answer = record answered {
  resp_header =
      (
        str "Signature",
        build_signature_header sub (str "k1") 1000 1301 (str "YWNr" ++ str "{catalogs}"),
      )
      ∷ [];
}

send_ack-SignsAnother_example :
    SignsAnother codec clock ack_signer answered (send_ack codec signed_answer)
unfolding sign_ack_step sign_body_and_set_header compute_sig_header ack_body build_ack_body
    header_set insert is_at_least_v2
send_ack-SignsAnother_example =
    send_ack-SignsAnother codec clock ack_signer answered signed_answer none
      (record { version = refl; msg_id = refl }) refl refl refl

abbrev at_path : Str → BecknError
at_path p = new_coded_error_with_cause (str "SCH_INVALID_FORMAT") (str "bad") p no_cause

abbrev two_errors : List BecknError
two_errors = at_path (str "a.b") ∷ at_path (str "c") ∷ []
