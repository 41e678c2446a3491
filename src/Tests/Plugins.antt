-- ===== src/Tests/Plugins.antt =====
-- Small plugins, a request and contexts to run the pipeline on.
use network_adapter.Prelude.{false, none, some, [], ◌++◌, if◌then◌else◌, Str, str_eq}
use network_adapter.Text.{str}
use network_adapter.Result.{ok}
use network_adapter.Model.{Role, Url, Keyset, StepContext}
use network_adapter.Ports.{Signer, KeyManager, SignValidator, Clock, Codec, Envelope}
use network_adapter.Response.{AckSigner}
use network_adapter.Steps.{SignStep, ValidateSignStep}
use network_adapter.Handler.{Request, Transport}

abbrev encoded : Envelope → Str
encoded (Envelope.v2 s id e) = str "{v2 " ++ (id ++ str "}")
encoded (Envelope.pre_v2 s e) = str "{pre}"

abbrev pub codec : Codec
codec = record {
  marshal = encoded;
  context_field = λ name body. some (
      if str_eq name (str "version")
      then str "2.0.0"
      else if str_eq name (str "action")
      then str "search"
      else str "m1");
  member_count = λ body. ok 1;
}

abbrev pub clock : Clock
clock = record { created_at = 1000; valid_from = 1001 }

abbrev pub signer : Signer
signer = record {
  sign = λ body key created expires. ok (str "c2ln");
  sign_ack = λ body request key created expires. ok (str "YWNr" ++ body);
}

abbrev pub keys : Keyset
keys = record { unique_key_id = str "k1"; signing_private = str "priv"; signing_public = str "pub" }

abbrev pub km : KeyManager
km = record { keyset = λ s. ok keys; lookup_np_keys = λ s u. ok (str "pub", str "enc") }

abbrev pub validator : SignValidator
validator = record {
  validate = λ ctx value key ci. none;
  validate_ack = λ ctx body value request key ci. none;
}

abbrev pub sign_step : SignStep
sign_step = record { signer = signer; km = km; payload_store = none }

abbrev pub validate_step : ValidateSignStep
validate_step = record { validator = validator; km = km; payload_store = none }

abbrev pub ack_signer : AckSigner
ack_signer = record { signer = signer; km = km }

abbrev pub some_url : Url
some_url = record {
  origin = str "https://b.example";
  path = str "/bpp/search";
  raw_query = str "x=1";
}

abbrev pub a_context : StepContext
a_context = record {
  context = record { version = some (str "2.0.0"); msg_id = some (str "m1") };
  method = str "POST";
  req_url = some_url;
  req_header = [];
  body = str "{}";
  route = none;
  sub_id = str "b.example";
  own_subscriber_id = str "b.example";
  role = Role.bpp;
  resp_header = [];
  protocol_version = str "2.0.0";
  message_id = str "m1";
  inbound_auth_signature = str "cmVx";
  is_caller_handler = false;
  response_body = [];
}

abbrev pub a_request : Request
a_request = record {
  method = str "POST";
  url = some_url;
  host = str "b.example";
  header = [];
  body = some (str "{}");
  subscriber = none;
}

abbrev pub transport : Transport
transport f = ok (200, [], ok (str "{}"))
