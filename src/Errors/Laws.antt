-- ===== src/Errors/Laws.antt =====
-- What core relies on of pkg/model/error.go.
use network_adapter.Prelude.{
  ◌≡◌, ◌≢◌, ◌≤◌, List, [], ◌∷◌, map, arith, Str, All, is_empty, any, not, true,
}
use network_adapter.Text.{Without, split, split-join, join, str}
use network_adapter.Errors.{
  BecknError, Coded, coded_err, details, no_downstream, http_status, resolve_code, path_of,
  details_of, schema_beckn_error, first_non_empty_code, joined_details, code_of, coded_beckn_error,
  default_schema_validation_code,
}

-- A CodedErr is never answered with a status outside the 4xx and 5xx range.
pub http_status_bounds : (c : Coded) → (400 ≤ http_status c) × (http_status c ≤ 599)
unfolding http_status
http_status_bounds (coded_err code status prefix default_code c) = ground arith

resolve_code-nonempty : (c : Coded) → resolve_code c ≢ []
unfolding resolve_code
resolve_code-nonempty (coded_err code status prefix default_code c) = ground arith

first_non_empty_code-nonempty :
    (es : List BecknError) (d : Str) → d ≢ [] → first_non_empty_code es d ≢ []
unfolding first_non_empty_code
first_non_empty_code-nonempty [] d h = h
first_non_empty_code-nonempty (e ∷ es) d h = ground (arith, first_non_empty_code-nonempty es d h)

pub schema_beckn_error-code : (es : List BecknError) → code_of (schema_beckn_error es) ≢ []
unfolding schema_beckn_error
schema_beckn_error-code [] = λ e. cc
schema_beckn_error-code (e ∷ es) =
    first_non_empty_code-nonempty (e ∷ es) default_schema_validation_code (λ e. cc)

pub coded_beckn_error-code : (c : Coded) → code_of (coded_beckn_error c) ≢ []
unfolding coded_beckn_error
coded_beckn_error-code c = resolve_code-nonempty c

-- The paths of a schema error's causes can be read back from the details, if one of them is set
-- and none holds a semicolon.
pub schema_beckn_error-paths :
    (e : BecknError) (es : List BecknError)
    → All (λ p. Without b';' p) (map path_of (e ∷ es))
    → any (λ p. not (is_empty p)) (map path_of (e ∷ es)) ≡ true
    → (details_of (schema_beckn_error (e ∷ es))
        ≡ details (join (str ";") (map path_of (e ∷ es))) no_downstream)
      × (split b';' (path_of (schema_beckn_error (e ∷ es))) ≡ map path_of (e ∷ es))
unfolding schema_beckn_error joined_details path_of
schema_beckn_error-paths e es plain h =
    (rw h, rw h (split-join b';' (path_of e) (map path_of es) plain))
