-- ===== src/Errors.antt =====
-- pkg/model/error.go: the error values that the steps return, and Go's errors.As over their chains.
pub mod Laws
use network_adapter.Prelude.{
  ℕ, Bool, ◌||◌, Option, none, some, List, [], ◌∷◌, ◌++◌, map, if◌then◌else◌, ltb, is_empty, any,
  not, Str,
}
use network_adapter.Text.{str, join}

-- model.Status
pub data Status : Type 0 where
  ack nack : Status

abbrev pub status_text : Status → Str
status_text ack = str "ACK"
status_text nack = str "NACK"

mutual
  -- Error: code, message, details and the unexported cause.
  pub data BecknError : Type 0 where
    beckn_error : Str → Str → Details → Cause → BecknError

  -- *ErrorDetails: a path, and the error of a downstream layer.
  pub data Details : Type 0 where
    no_details : Details
    details : Str → Downstream → Details

  pub data Downstream : Type 0 where
    no_downstream : Downstream
    downstream : BecknError → Downstream

  -- A wrapped error, or nil.
  pub data Cause : Type 0 where
    no_cause : Cause
    cause : GoErr → Cause

  -- CodedErr: code, HTTP status, message prefix, default code and cause. Every caller gives a
  -- status that is not negative.
  pub data Coded : Type 0 where
    coded_err : Str → ℕ → Str → Str → Cause → Coded

  -- The errors of a SchemaValidationErr.
  pub data SchemaErrors : Type 0 where
    none_left : SchemaErrors
    schema_error : BecknError → SchemaErrors → SchemaErrors

  -- The dynamic types that a Go `error` has here. `plain` is that of errors.New and of an Errorf
  -- without %w; `wrapped` that of Errorf("prefix%w", err); `foreign` a plugin's own BecknErrorer
  -- with its text, its NACK payload and its cause.
  pub data GoErr : Type 0 where
    plain : Str → GoErr
    wrapped : Str → GoErr → GoErr
    schema_validation : SchemaErrors → GoErr
    coded : Coded → GoErr
    ack_no_callback : Status → BecknError → GoErr
    beckn : BecknError → GoErr
    foreign : Str → BecknError → Cause → GoErr

abbrev pub code_of : BecknError → Str
code_of (beckn_error code message d c) = code

abbrev pub message_of : BecknError → Str
message_of (beckn_error code message d c) = message

abbrev pub details_of : BecknError → Details
details_of (beckn_error code message d c) = d

-- NewCodedErrorWithCause
unfoldable pub new_coded_error_with_cause : Str → Str → Str → Cause → BecknError
new_coded_error_with_cause code message path c =
    beckn_error code message (if is_empty path then no_details else details path no_downstream) c

abbrev path_in : Details → Str
path_in no_details = []
path_in (details path d) = path

-- (*Error).path
unfoldable pub path_of : BecknError → Str
path_of e = path_in (details_of e)

-- (*Error).Error
unfoldable pub error_text : BecknError → Str
unfolding path_of
error_text e =
    str "Error: Code="
    ++ (code_of e ++ (str ", Path=" ++ (path_of e ++ (str ", Message=" ++ message_of e))))

unfoldable pub schema_list : SchemaErrors → List BecknError
schema_list none_left = []
schema_list (schema_error e es) = e ∷ schema_list es

abbrev described : BecknError → Str
described e = path_of e ++ (str ": " ++ message_of e)

-- (*SchemaValidationErr).Error
unfoldable pub schema_text : List BecknError → Str
unfolding join path_of
schema_text es = join (str "; ") (map described es)

-- The Error method of each dynamic type.
unfoldable mutual
  unfolding error_text schema_text schema_list

  pub text : GoErr → Str
  text (plain t) = t
  text (wrapped t e) = t ++ text e
  text (schema_validation es) = schema_text (schema_list es)
  text (coded c) = coded_text c
  text (ack_no_callback s e) =
      str "AckNoCallback(status=" ++ (status_text s ++ (str "): " ++ error_text e))
  text (beckn e) = error_text e
  text (foreign t e c) = t

  pub coded_text : Coded → Str
  coded_text (coded_err code status prefix default_code c) = cause_text c

  pub cause_text : Cause → Str
  cause_text no_cause = []
  cause_text (cause e) = text e

-- FirstNonEmptyCode
unfoldable pub first_non_empty_code : List BecknError → Str → Str
first_non_empty_code [] default_code = default_code
first_non_empty_code (e ∷ es) default_code =
    if is_empty (code_of e) then first_non_empty_code es default_code else code_of e

abbrev pub default_schema_validation_code : Str
default_schema_validation_code = str "SCH_INVALID_FORMAT"

abbrev pub default_unclassified_code : Str
default_unclassified_code = str "NET_INTERNAL_ERROR"

abbrev pub default_sign_validation_code : Str
default_sign_validation_code = str "AUT_SIGNATURE_INVALID"

abbrev pub default_bad_req_code : Str
default_bad_req_code = str "SCH_INVALID_FORMAT"

abbrev pub default_not_found_code : Str
default_not_found_code = str "NET_ENTITY_NOT_FOUND"

-- The details of the joined error: the paths of all causes, if one of them has a path.
unfoldable pub joined_details : List Str → Details
unfolding join
joined_details paths =
    if any (λ p. not (is_empty p)) paths
    then details (join (str ";") paths) no_downstream
    else no_details

-- (*SchemaValidationErr).BecknError
unfoldable pub schema_beckn_error : List BecknError → BecknError
unfolding first_non_empty_code joined_details path_of
schema_beckn_error [] =
    beckn_error default_schema_validation_code (str "Schema validation error.") no_details no_cause
schema_beckn_error (e ∷ es) =
    beckn_error (first_non_empty_code (e ∷ es) default_schema_validation_code)
      (join (str "; ") (map message_of (e ∷ es))) (joined_details (map path_of (e ∷ es))) no_cause

-- NewCodedErr
unfoldable pub new_coded_err : ℕ → Str → GoErr → GoErr
new_coded_err status code e = coded (coded_err code status [] default_unclassified_code (cause e))

-- NewSignValidationErr
unfoldable pub new_sign_validation_err : Str → GoErr → GoErr
new_sign_validation_err code e =
    coded (
      coded_err code 401 (str "Signature Validation Error: ") default_sign_validation_code
        (cause e))

-- NewBadReqErr
unfoldable pub new_bad_req_err : Str → GoErr → GoErr
new_bad_req_err code e =
    coded (coded_err code 400 (str "BAD Request: ") default_bad_req_code (cause e))

-- NewNotFoundErr
unfoldable pub new_not_found_err : Str → GoErr → GoErr
new_not_found_err code e =
    coded (coded_err code 404 (str "Endpoint not found: ") default_not_found_code (cause e))

-- (*CodedErr).HTTPStatus
unfoldable pub http_status : Coded → ℕ
http_status (coded_err code status prefix default_code c) =
    if ltb status 400 || ltb 599 status then 400 else status

-- (*CodedErr).resolveCode
unfoldable pub resolve_code : Coded → Str
resolve_code (coded_err code status prefix default_code c) =
    if not (is_empty code)
    then code
    else if not (is_empty default_code)
    then default_code
    else default_unclassified_code

abbrev prefix_of : Coded → Str
prefix_of (coded_err code status prefix default_code c) = prefix

-- (*CodedErr).BecknError
unfoldable pub coded_beckn_error : Coded → BecknError
unfolding resolve_code coded_text
coded_beckn_error c = beckn_error (resolve_code c) (prefix_of c ++ coded_text c) no_details no_cause

abbrev pub first_of_two : {A : Type 0} → Option A → Option A → Option A
first_of_two (some a) o = some a
first_of_two none o = o

-- errors.As: the first error of the chain that the target's type fits.
unfoldable mutual
  pub errors_as : {A : Type 0} → (GoErr → Option A) → GoErr → Option A
  errors_as fits (plain t) = fits (plain t)
  errors_as fits (wrapped t e) = first_of_two (fits (wrapped t e)) (errors_as fits e)
  errors_as fits (schema_validation es) = fits (schema_validation es)
  errors_as fits (coded c) = first_of_two (fits (coded c)) (as_in_coded fits c)
  errors_as fits (ack_no_callback s e) = fits (ack_no_callback s e)
  errors_as fits (beckn e) = first_of_two (fits (beckn e)) (as_in_error fits e)
  errors_as fits (foreign t e c) = first_of_two (fits (foreign t e c)) (as_in_cause fits c)

  pub as_in_coded : {A : Type 0} → (GoErr → Option A) → Coded → Option A
  as_in_coded fits (coded_err code status prefix default_code c) = as_in_cause fits c

  pub as_in_error : {A : Type 0} → (GoErr → Option A) → BecknError → Option A
  as_in_error fits (beckn_error code message d c) = as_in_cause fits c

  pub as_in_cause : {A : Type 0} → (GoErr → Option A) → Cause → Option A
  as_in_cause fits no_cause = none
  as_in_cause fits (cause e) = errors_as fits e

-- The targets *SchemaValidationErr, *CodedErr, *AckNoCallbackErr and BecknErrorer.
abbrev pub fits_schema : GoErr → Option (List BecknError)
fits_schema (schema_validation es) = some (schema_list es)
fits_schema _ = none

abbrev pub fits_coded : GoErr → Option Coded
fits_coded (coded c) = some c
fits_coded _ = none

abbrev pub fits_ack_no_callback : GoErr → Option (Status × BecknError)
fits_ack_no_callback (ack_no_callback s e) = some (s, e)
fits_ack_no_callback _ = none

abbrev pub fits_errorer : GoErr → Option BecknError
fits_errorer (schema_validation es) = some (schema_beckn_error (schema_list es))
fits_errorer (coded c) = some (coded_beckn_error c)
fits_errorer (ack_no_callback s e) = some e
fits_errorer (foreign t e c) = some e
fits_errorer _ = none
