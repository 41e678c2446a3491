-- ===== src/Model.antt =====
-- pkg/model/model.go: the request context, routes, protocol versions, and decoded JSON.
use network_adapter.Prelude.{
  ℕ, Bool, ◌||◌, not, Option, none, some, List, [], ◌∷◌, ◌++◌, if◌then◌else◌, is_empty, Str, str_eq,
  lookup, insert, get_or,
}
use network_adapter.Text.{str}
use network_adapter.Errors.{
  GoErr, beckn, wrapped, new_bad_req_err, new_coded_error_with_cause, cause, no_cause, text,
  code_of,
}
use network_adapter.Json.{Json, as_string, as_object}
use network_adapter.Result.{Res, ok, err}

-- model.Role, for the roles that the code tells apart.
pub data Role : Type 0 where
  bap bpp gateway registry discovery : Role

-- *url.URL: `origin` is all that stands before the path (scheme, user and host).
pub record Url : Type 0 where
  pub origin : Str
  pub path : Str
  pub raw_query : Str

-- model.Route
pub record Route : Type 0 where
  pub target_type : Str
  pub publisher_id : Str
  pub url : Option Url

-- http.Header, under canonical names; Set and Get.
abbrev pub Header : Type 0
Header = List (Str × Str)

unfoldable pub header_set : Str → Str → Header → Header
header_set k v h = insert k v h

unfoldable pub header_get : Str → Header → Str
header_get k h = get_or (lookup k h) []

abbrev pub auth_header_subscriber : Str
auth_header_subscriber = str "Authorization"

abbrev pub auth_header_gateway : Str
auth_header_gateway = str "X-Gateway-Authorization"

abbrev pub unauthorized_header_subscriber : Str
unauthorized_header_subscriber = str "WWW-Authenticate"

abbrev pub unauthorized_header_gateway : Str
unauthorized_header_gateway = str "Proxy-Authenticate"

-- model.Keyset, without the encryption keys.
pub record Keyset : Type 0 where
  pub unique_key_id : Str
  pub signing_private : Str
  pub signing_public : Str

-- The values of a context.Context that the responses read.
pub record GoContext : Type 0 where
  pub version : Option Str
  pub msg_id : Option Str

-- model.StepContext; the request is its method, its URL and its header.
pub record StepContext : Type 0 where
  pub context : GoContext
  pub method : Str
  pub req_url : Url
  pub req_header : Header
  pub body : Str
  pub route : Option Route
  pub sub_id : Str
  pub own_subscriber_id : Str
  pub role : Role
  pub resp_header : Header
  pub protocol_version : Str
  pub message_id : Str
  pub inbound_auth_signature : Str
  pub is_caller_handler : Bool
  pub response_body : Str

-- nonUsableKeySubscriptionStatuses and IsKeyStatusUsable
unfoldable pub is_key_status_usable : Str → Bool
is_key_status_usable status = not (
    str_eq status (str "EXPIRED")
    || (str_eq status (str "UNSUBSCRIBED") || str_eq status (str "INVALID_SSL")))

abbrev context_of : Option Json → Option (List (Str × Json))
context_of none = none
context_of (some j) = as_object j

-- ExtractContext, over the decoder's answer: the body's members or the decoder's error.
abbrev extracted : List (Str × Json) → Option (List (Str × Json)) → Res (List (Str × Json))
extracted req (some c) = ok c
extracted req none = err (
    beckn (
      new_coded_error_with_cause (str "SCH_REQUIRED_FIELD_MISSING")
        (str "context field not found or invalid") [] no_cause))

unfoldable pub extract_context : Res (List (Str × Json)) → Res (List (Str × Json))
unfolding lookup new_coded_error_with_cause text as_object
extract_context (err e) = err (
    beckn (
      new_coded_error_with_cause (str "SCH_INVALID_JSON")
        (str "failed to decode request body: " ++ text e) [] (cause e)))
extract_context (ok req) = extracted req (context_of (lookup (str "context") req))

abbrev beckn_code : GoErr → Str
beckn_code (beckn e) = code_of e
beckn_code _ = []

-- WrapExtractContextErr, over the *Error that ExtractContext returned.
unfoldable pub wrap_extract_context_err : Str → GoErr → GoErr
unfolding new_bad_req_err
wrap_extract_context_err prefix e = new_bad_req_err (beckn_code e) (wrapped (prefix ++ str ": ") e)

abbrev string_at : Option Json → Option Str
string_at none = none
string_at (some j) = as_string j

-- `v, ok := ctx[key].(string); ok && v != ""`, and "" where the test fails.
unfoldable pub context_string_at : Str → List (Str × Json) → Str
unfolding as_string
context_string_at key ctx = get_or (string_at (lookup key ctx)) []

-- The first key, in order, whose value is a string that is not empty.
unfoldable pub first_context_string : List (Str × Json) → List Str → Str
unfolding context_string_at
first_context_string ctx [] = []
first_context_string ctx (key ∷ keys) =
    if is_empty (context_string_at key ctx)
    then first_context_string ctx keys
    else context_string_at key ctx

-- ResolveNetworkID
unfoldable pub resolve_network_id : List (Str × Json) → Str
unfolding first_context_string
resolve_network_id ctx = first_context_string ctx (str "network_id" ∷ str "networkId" ∷ [])

abbrev bap_keys : List Str
bap_keys = str "bap_id" ∷ str "bapId" ∷ str "senderId" ∷ []

abbrev bpp_keys : List Str
bpp_keys = str "bpp_id" ∷ str "bppId" ∷ str "receiverId" ∷ []

-- ResolveCallerID
unfoldable pub resolve_caller_id : List (Str × Json) → Role → Str
unfolding first_context_string
resolve_caller_id ctx bap = first_context_string ctx bpp_keys
resolve_caller_id ctx bpp = first_context_string ctx bap_keys
resolve_caller_id ctx _ = []

-- ResolveSubscriberID
unfoldable pub resolve_subscriber_id : List (Str × Json) → Role → Str
unfolding first_context_string
resolve_subscriber_id ctx bap = first_context_string ctx bap_keys
resolve_subscriber_id ctx bpp = first_context_string ctx bpp_keys
resolve_subscriber_id ctx _ = []

-- model.ResponseStepContext
pub record ResponseContext : Type 0 where
  pub status_code : ℕ
  pub header : Header
  pub body : Str
