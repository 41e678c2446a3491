-- ===== src/Signature.antt =====
-- What the signer and the validator sign: pkg/plugin/implementation/signer/signer.go, and the
-- libraries that it and signvalidator.go call.
pub mod Header
pub mod Validate
pub mod Parts
pub mod ReadBack
pub mod Accepted
pub mod Handshake
use network_adapter.Prelude.{
  ℕ, Bool, true, Option, ◌∷◌, ◌++◌, List, not, if◌then◌else◌, ◌==◌, is_empty, length, Str, ◌≡◌,
  false,
}
use network_adapter.Text.{str, int_text, GoInt}
use network_adapter.Json.{Json}
use network_adapter.Errors.{plain, wrapped}
use network_adapter.Result.{Res, ok, err, ◌>>=◌, map_err}
use network_adapter.Base64.{encode, decode, IsBytes}

-- blake2b.New512; ed25519: Sign with the key of a seed, the public key of a seed, and Verify;
-- strconv.Quote; time.Unix(s, 0).UTC() in RFC 3339; and the decoder of a body into a struct with
-- the member `context`.
pub record Libraries : Type 0 where
  pub blake2b : Str → Str
  pub ed25519_sign : Str → Str → Str
  pub ed25519_public : Str → Str
  pub ed25519_verify : Str → Str → Str → Bool
  pub quote : Str → Str
  pub rfc3339 : GoInt → Str
  pub context_member : Str → Res (Option (List (Str × Json)))

-- What ed25519 promises: a signature verifies under the public key of its seed, and is bytes.
pub record IsSound (lib : Libraries) : Type 0 where
  pub verifies :
      (seed message : Str)
      → length seed ≡ 32
      → lib.ed25519_verify (lib.ed25519_public seed) message (lib.ed25519_sign seed message) ≡ true
  pub sign_bytes : (seed message : Str) → IsBytes (lib.ed25519_sign seed message)
  pub sign_not_empty : (seed message : Str) → is_empty (lib.ed25519_sign seed message) ≡ false
  pub public_bytes : (seed : Str) → IsBytes (lib.ed25519_public seed)
  pub public_length : (seed : Str) → length (lib.ed25519_public seed) ≡ 32

module _ (lib : Libraries) where
  -- hash, which signer.go and signvalidator.go both declare.
  unfoldable pub hash : Str → GoInt → GoInt → Str
  unfolding int_text encode
  hash payload created expires =
      str "(created): "
      ++ (int_text created
          ++ (str "\n(expires): "
              ++ (int_text expires
                  ++ (str "\ndigest: BLAKE-512=" ++ encode (lib.blake2b payload)))))

  -- hashAck, and the same lines in SignAck.
  unfoldable pub hash_ack : Str → GoInt → GoInt → Str → Str
  unfolding hash
  hash_ack payload created expires request_signature =
      if is_empty request_signature
      then hash payload created expires
      else hash payload created expires ++ (str "\nrequest-signature: " ++ request_signature)

  abbrev sign_with : Str → Str → Res Str
  sign_with message seed =
      if not (length seed == 32)
      then err (plain (str "invalid seed length"))
      else ok (lib.ed25519_sign seed message)

  -- generateSignature
  unfoldable pub generate_signature : Str → Str → Res Str
  unfolding decode
  generate_signature message private_key =
      map_err (wrapped (str "error decoding private key: ")) (decode private_key)
      >>= sign_with message

  -- Sign
  unfoldable pub sign : Str → Str → GoInt → GoInt → Res Str
  unfolding hash generate_signature encode
  sign body private_key created expires =
      generate_signature (hash body created expires) private_key >>= λ sig. ok (encode sig)

  -- SignAck
  unfoldable pub sign_ack : Str → Str → Str → GoInt → GoInt → Res Str
  unfolding hash_ack generate_signature encode
  sign_ack body request_signature private_key created expires =
      generate_signature (hash_ack body created expires request_signature) private_key >>= λ sig.
      ok (encode sig)
