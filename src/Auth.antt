-- ===== src/Auth.antt =====
-- The Authorization and Signature headers: core/module/handler/step.go and responsestep.go.
pub mod Search
pub mod Laws
use network_adapter.Prelude.{
  ℕ, Bool, true, false, Option, none, some, List, [], ◌∷◌, ◌++◌, if◌then◌else◌, is_empty, length,
  Str, get_or,
}
use network_adapter.Text.{str, after_first, before_byte, contains, trim_space, split, decimal}
use network_adapter.Errors.{GoErr, plain}
use network_adapter.Result.{Res, ok, err}

-- authHeader: the parts of the header's keyId.
pub record AuthHeader : Type 0 where
  pub subscriber_id : Str
  pub unique_id : Str
  pub algorithm : Str

-- Both headers: the fields, the list of what is signed, and the signature.
unfoldable pub signature_text : Str → Str → ℕ → ℕ → Str → Str → Str
signature_text sub_id key_id created_at valid_till headers signature =
    str "Signature keyId=\""
    ++ (sub_id
        ++ (b'|'
            ∷ (key_id
                ++ (b'|'
                    ∷ (str "ed25519\",algorithm=\"ed25519\",created=\""
                        ++ (decimal created_at
                            ++ (str "\",expires=\""
                                ++ (decimal valid_till
                                    ++ (str "\",headers=\""
                                        ++ (headers
                                            ++ (str "\",signature=\""
                                                ++ (signature ++ b'"' ∷ []))))))))))))

abbrev pub three_lines : Str
three_lines = str "(created) (expires) digest"

abbrev pub four_lines : Str
four_lines = str "(created) (expires) digest request-signature"

-- (*signStep).generateAuthHeader
unfoldable pub generate_auth_header : Str → Str → ℕ → ℕ → Str → Str → Str
generate_auth_header sub_id key_id created_at valid_till signature request_sig =
    signature_text sub_id key_id created_at valid_till
      (if is_empty request_sig then three_lines else four_lines) signature

-- buildSignatureHeader
unfoldable pub build_signature_header : Str → Str → ℕ → ℕ → Str → Str
build_signature_header sub_id key_id created_at valid_till signature =
    signature_text sub_id key_id created_at valid_till four_lines signature

-- The text between the first occurrence of a marker and the next quote.
unfoldable pub quoted_after : Str → Str → Option Str
quoted_after marker header = elim (after_first marker header) [
  | none ↦ none
  | some rest ↦ before_byte b'"' rest
]

abbrev pub lists_request_sig : Option Str → Bool
lists_request_sig none = false
lists_request_sig (some value) = contains (str "request-signature") value

-- authHeaderIncludesRequestSig
unfoldable pub auth_header_includes_request_sig : Str → Bool
auth_header_includes_request_sig header = lists_request_sig (quoted_after (str "headers=\"") header)

-- extractAuthSignature
unfoldable pub extract_auth_signature : Str → Str
extract_auth_signature header = get_or (quoted_after (str ",signature=\"") header) []

-- The key id, trimmed, and "" where the attribute is missing or not closed.
abbrev key_id_part : Option Str → Str
key_id_part none = []
key_id_part (some value) = trim_space value

three_components : Str → List Str → Res AuthHeader
three_components part (s ∷ u ∷ a ∷ []) =
    ok (record { subscriber_id = trim_space s; unique_id = trim_space u; algorithm = trim_space a })
three_components part parts = err (
    plain (
      str "keyId parameter has incorrect format, expected 3 components separated by '|', got "
      ++ (decimal (length parts) ++ (str " for '" ++ (part ++ str "'")))))

unfoldable pub parse_key_id : Str → Res AuthHeader
unfolding three_components
parse_key_id part =
    if is_empty part
    then err (plain (str "keyId parameter not found in Authorization header"))
    else three_components part (split b'|' part)

-- parseHeader
unfoldable pub parse_header : Str → Res AuthHeader
parse_header header = parse_key_id (key_id_part (quoted_after (str "keyId=\"") header))
