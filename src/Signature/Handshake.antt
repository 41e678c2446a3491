-- ===== src/Signature/Handshake.antt =====
-- What the signer signs and the handler writes into a header, the validator accepts: signer.go,
-- step.go and signvalidator.go.
use network_adapter.Prelude.{
  ℕ, ◌+◌, ◌/◌, ◌^◌, ◌<◌, ◌≤◌, ◌≡◌, ◌⊎◌, sym, ap, ◌∙◌, Bool, false, Str, [], length, arith,
}
use network_adapter.Text.{GoInt, Without}
use network_adapter.Result.{ok, >>=-eq-ok, ok-injective, map_err-eq-ok}
use network_adapter.Auth.{signature_text, generate_auth_header, three_lines}
use network_adapter.Auth.Laws.{IsPart, signed_headers-Without, signed_headers-Without_quote}
use network_adapter.Base64.{decode, encode}
use network_adapter.Base64.Laws.{decode-encode, encode-no_quote, encode-no_comma, encode-not_empty}
use network_adapter.Signature.{
  Libraries, IsSound, hash, hash_ack, sign, sign_ack, generate_signature,
}
use network_adapter.Signature.Validate.{
  accepted, Setting, is_after, is_over, nanoseconds, validate, validate_ack,
}
use network_adapter.Signature.ReadBack.{IsPlain, parse_auth_header-signature_text}
use network_adapter.Signature.Accepted.{Accepts, Fits, validate_iff, validate_ack_iff}

abbrev pub seconds : ℕ → GoInt
seconds n = record { negative = false; magnitude = n }

-- A part of a key id that holds no comma either.
abbrev pub IsField : Str → Type 0
IsField s = IsPart s × Without b',' s

module _ (lib : Libraries) where
  generate_signature-eq-ok :
      (message private_key : Str) {sig : Str}
      → generate_signature lib message private_key ≡ ok sig
      → (seed : Str) × (decode private_key ≡ ok seed)
        × (length seed ≡ 32)
        × (sig ≡ lib.ed25519_sign seed message)
  unfolding generate_signature
  generate_signature-eq-ok message private_key done =
      let (seed, p, q) = >>=-eq-ok _ _ done in
      (seed, map_err-eq-ok _ _ p, ground arith, ground arith)

  sign-eq-ok :
      (body private_key : Str) (created expires : GoInt) {sig : Str}
      → sign lib body private_key created expires ≡ ok sig
      → (seed : Str) × (decode private_key ≡ ok seed)
        × (length seed ≡ 32)
        × (sig ≡ encode (lib.ed25519_sign seed (hash lib body created expires)))
  unfolding sign
  sign-eq-ok body private_key created expires done =
      let (raw, p, q) = >>=-eq-ok _ _ done in
      let (seed, r, l, e) = generate_signature-eq-ok _ private_key p in
      (seed, r, l, sym (ok-injective q) ∙ ap encode e)

  sign_ack-eq-ok :
      (body request_sig private_key : Str) (created expires : GoInt) {sig : Str}
      → sign_ack lib body request_sig private_key created expires ≡ ok sig
      → (seed : Str) × (decode private_key ≡ ok seed)
        × (length seed ≡ 32)
        × (sig ≡ encode (lib.ed25519_sign seed (hash_ack lib body created expires request_sig)))
  unfolding sign_ack
  sign_ack-eq-ok body request_sig private_key created expires done =
      let (raw, p, q) = >>=-eq-ok _ _ done in
      let (seed, r, l, e) = generate_signature-eq-ok _ private_key p in
      (seed, r, l, sym (ok-injective q) ∙ ap encode e)

module _ (lib : Libraries) (sound : IsSound lib) (at : Setting) (sub key : Str)
    (sub_field : IsField sub) (key_field : IsField key) (created expires : ℕ) where
  -- The message is in its time: not before it is created, not after it expires.
  abbrev pub IsTimely : Type 0
  IsTimely =
      (created ≤ (at.now + at.tolerance) / nanoseconds)
      × (at.now / nanoseconds ≤ expires)
      × (created < 2 ^ 63)
      × (expires < 2 ^ 63)

  signed-Accepts :
      (body : Str) (signing : GoInt → GoInt → Str) (check_identity : Bool) (seed headers : Str)
      → Without b'"' headers
      → Without b',' headers
      → length seed ≡ 32
      → IsTimely
      → (check_identity ≡ false) ⊎ Fits lib at body sub
      → Accepts lib at body signing check_identity
          (signature_text sub key created expires headers
            (encode (lib.ed25519_sign seed (signing (seconds created) (seconds expires)))))
          (encode (lib.ed25519_public seed))
  unfolding is_after is_over
  signed-Accepts body signing check_identity seed headers hq hc l (t, u, v, w) f =
      let message = signing (seconds created) (seconds expires) in
      let raw = lib.ed25519_sign seed message in
      let is_plain : IsPlain sub key created expires headers (encode raw) = record {
        sub_part = sub_field.0;
        key_part = key_field.0;
        sub_comma = sub_field.1;
        key_comma = key_field.1;
        headers_quote = hq;
        headers_comma = hc;
        sig_quote = encode-no_quote raw;
        sig_comma = encode-no_comma raw;
        sig_some = encode-not_empty raw (sound.sign_not_empty seed message);
      } in
      record {
        read = record {
          created = seconds created;
          expires = seconds expires;
          signature = encode raw;
          signer = sub;
        };
        sig = raw;
        key = lib.ed25519_public seed;
        header_read =
            parse_auth_header-signature_text sub key created expires headers (encode raw) lib
              is_plain v w;
        sig_read = decode-encode raw (sound.sign_bytes seed message);
        key_read = decode-encode (lib.ed25519_public seed) (sound.public_bytes seed);
        key_length = sound.public_length seed;
        in_window = (ground arith, ground arith);
        verifies = sound.verifies seed message l;
        fits = f;
      }

  -- A request that is signed with the key of a seed and sent under the header of
  -- generateAuthHeader is accepted by Validate under the public key of that seed, in its time and
  -- under the identity that is expected; the parts of the key id hold no quote, bar, comma or white
  -- space.
  pub sign-validate :
      (body private_key seed sig : Str) (check_identity : Bool)
      → decode private_key ≡ ok seed
      → sign lib body private_key (seconds created) (seconds expires) ≡ ok sig
      → IsTimely
      → (check_identity ≡ false) ⊎ Fits lib at body sub
      → validate lib at body
          (generate_auth_header sub key created expires sig [])
          (encode (lib.ed25519_public seed))
          check_identity
        ≡ accepted
  unfolding generate_auth_header
  sign-validate body private_key seed sig check_identity d done t f =
      let (s, p, l, e) = sign-eq-ok lib body private_key (seconds created) (seconds expires) done in
      let same : s ≡ seed = ok-injective (sym p ∙ d) in
      rw e (
        rw (sym same) (
          (validate_iff lib at body _ _ check_identity).1 (
            signed-Accepts body (hash lib body) check_identity s three_lines
              (signed_headers-Without_quote []) (signed_headers-Without []) l t f)))

  -- The same for a request or an answer that covers the signature of an earlier request, with
  -- SignAck and ValidateAck.
  pub sign_ack-validate_ack :
      (body request_sig private_key seed sig : Str) (check_identity : Bool)
      → decode private_key ≡ ok seed
      → sign_ack lib body request_sig private_key (seconds created) (seconds expires) ≡ ok sig
      → IsTimely
      → (check_identity ≡ false) ⊎ Fits lib at body sub
      → validate_ack lib at body
          (generate_auth_header sub key created expires sig request_sig)
          request_sig
          (encode (lib.ed25519_public seed))
          check_identity
        ≡ accepted
  unfolding generate_auth_header
  sign_ack-validate_ack body request_sig private_key seed sig check_identity d done t f =
      let (s, p, l, e) =
        sign_ack-eq-ok lib body request_sig private_key (seconds created) (seconds expires) done in
      let same : s ≡ seed = ok-injective (sym p ∙ d) in
      rw e (
        rw (sym same) (
          (validate_ack_iff lib at body _ request_sig _ check_identity).1 (
            signed-Accepts body (λ c v. hash_ack lib body c v request_sig) check_identity s _
              (signed_headers-Without_quote request_sig) (signed_headers-Without request_sig) l t
              f)))
