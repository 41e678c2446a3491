-- ===== src/Signature/Validate.antt =====
-- Validate, ValidateAck and their checks: pkg/plugin/implementation/signvalidator/signvalidator.go.
use network_adapter.Prelude.{
  ℕ, ◌+◌, ◌-◌, ◌/◌, ◌^◌, Bool, Option, none, some, List, [], ◌∷◌, ◌++◌, not, if◌then◌else◌, ltb,
  ◌==◌, is_empty, length, Str, str_eq, get_or, ◌||◌, false, ◌&&◌,
}
use network_adapter.Text.{str, GoInt, decimal}
use network_adapter.Json.{Json}
use network_adapter.Errors.{GoErr, plain, wrapped, new_sign_validation_err}
use network_adapter.Result.{Res, ok, err}
use network_adapter.Model.{Role, resolve_caller_id}
use network_adapter.Base64.{decode}
use network_adapter.Signature.{Libraries, hash, hash_ack}
use network_adapter.Signature.Header.{SignatureHeader, parse_auth_header, signature_invalid}

-- A call accepts, returns an error, or panics: ed25519.Verify panics on a public key that is not
-- of 32 bytes.
pub data Verdict : Type 0 where
  accepted : Verdict
  refused : GoErr → Verdict
  panicked : Verdict

-- The validator's tolerance and time.Now(), in nanoseconds, and what it reads of the context.
pub record Setting : Type 0 where
  pub tolerance : ℕ
  pub now : ℕ
  pub remote_id : Option Str
  pub role : Role

abbrev pub nanoseconds : ℕ
nanoseconds = 10 ^ 9

-- time.Unix(s, 0).After(deadline): a time.Time counts its seconds from the year 1, so that an `s`
-- within 62135596800 of 2^63 wraps around and lies in the past.
unfoldable pub is_after : GoInt → ℕ → Bool
is_after i deadline =
    not i.negative
    && (ltb (i.magnitude + 62135596800) (2 ^ 63) && ltb (deadline / nanoseconds) i.magnitude)

-- `now > i` for a number of seconds.
unfoldable pub is_over : GoInt → ℕ → Bool
is_over i now = i.negative || ltb i.magnitude now

-- `now - i`, in 64 bits.
elapsed : GoInt → ℕ → Str
elapsed i now =
    if not i.negative
    then decimal (now - i.magnitude)
    else if ltb (now + i.magnitude) (2 ^ 63)
    then decimal (now + i.magnitude)
    else b'-' ∷ decimal (2 ^ 64 - (now + i.magnitude))

abbrev invalid : GoErr → Verdict
invalid e = refused (new_sign_validation_err signature_invalid e)

module _ (lib : Libraries) (at : Setting) where
  not_yet_valid : Str → GoInt → GoErr
  not_yet_valid prefix created = plain (
      prefix
      ++ (str " not yet valid: created="
          ++ (lib.rfc3339 created
              ++ (str ", server_time="
                  ++ (lib.rfc3339 (record { negative = false; magnitude = at.now / nanoseconds })
                      ++ (str ", tolerance="
                          ++ (decimal (at.tolerance / nanoseconds)
                              ++ (str "s, overshoot="
                                  ++ (decimal
                                        (created.magnitude - (at.now + at.tolerance) / nanoseconds)
                                      ++ str "s")))))))))

  expired : Str → GoInt → GoErr
  unfolding elapsed
  expired prefix expires = plain (
      prefix
      ++ (str " expired: expires="
          ++ (lib.rfc3339 expires
              ++ (str ", server_time="
                  ++ (lib.rfc3339 (record { negative = false; magnitude = at.now / nanoseconds })
                      ++ (str ", expired_by="
                          ++ (elapsed expires (at.now / nanoseconds) ++ str "s")))))))

  -- checkTimestampWindow, and what follows it.
  unfoldable pub check_timestamp_window : Str → GoInt → GoInt → Verdict → Verdict
  unfolding is_after is_over not_yet_valid expired new_sign_validation_err
  check_timestamp_window prefix created expires next =
      if is_after created (at.now + at.tolerance)
      then invalid (not_yet_valid prefix created)
      else if is_over expires (at.now / nanoseconds)
      then invalid (expired prefix expires)
      else next

  abbrev declared_in : Res (Option (List (Str × Json))) → Str
  declared_in (err e) = []
  declared_in (ok none) = []
  declared_in (ok (some ctx)) = resolve_caller_id ctx at.role

  -- The identity that checkSubscriberIdentity expects, and "" where it skips the check.
  unfoldable pub expected_signer : Str → Str
  expected_signer body =
      if is_empty (get_or at.remote_id [])
      then declared_in (lib.context_member body)
      else get_or at.remote_id []

  -- checkSubscriberIdentity
  unfoldable pub check_subscriber_identity : Str → Str → Verdict
  unfolding expected_signer new_sign_validation_err
  check_subscriber_identity body signer =
      let expected = expected_signer body in
      if is_empty expected
      then accepted
      else if not (str_eq signer expected)
      then refused (
          new_sign_validation_err (str "AUT_UNAUTHORIZED_ACTION") (
            plain (
              str "subscriber identity mismatch: signing subscriber "
              ++ (lib.quote signer
                  ++ (str " does not match declared context identity " ++ lib.quote expected)))))
      else accepted

  module _ (prefix failure body : Str) (signing : GoInt → GoInt → Str) (check_identity : Bool) where
    abbrev pub verified : SignatureHeader → Str → Res Str → Verdict
    verified h sig (err e) = invalid (wrapped (str "error decoding public key: ") e)
    verified h sig (ok key) =
        if not (length key == 32)
        then panicked
        else if not (lib.ed25519_verify key (signing h.created h.expires) sig)
        then invalid (plain failure)
        else if check_identity
        then check_subscriber_identity body h.signer
        else accepted

    abbrev pub decoded : Str → SignatureHeader → Res Str → Verdict
    decoded public_key h (err e) = invalid (wrapped (str "error decoding signature: ") e)
    decoded public_key h (ok sig) =
        check_timestamp_window prefix h.created h.expires (verified h sig (decode public_key))

    abbrev pub parsed : Str → Str → Res SignatureHeader → Verdict
    parsed name public_key (err e) =
        refused (wrapped (str "error parsing " ++ (name ++ str ": ")) e)
    parsed name public_key (ok h) = decoded public_key h (decode h.signature)

  -- Validate
  unfoldable pub validate : Str → Str → Str → Bool → Verdict
  unfolding check_timestamp_window check_subscriber_identity hash decode parse_auth_header
  validate body header public_key check_identity =
      parsed (str "signature") (str "signature verification failed") body (hash lib body)
        check_identity (str "header") public_key (parse_auth_header lib header)

  -- ValidateAck
  unfoldable pub validate_ack : Str → Str → Str → Str → Bool → Verdict
  unfolding check_timestamp_window check_subscriber_identity hash_ack decode parse_auth_header
  validate_ack body header request_signature public_key check_identity =
      parsed (str "AckSignature") (str "AckSignature verification failed") body
        (λ created expires. hash_ack lib body created expires request_signature) check_identity
        (str "Signature header") public_key (parse_auth_header lib header)
