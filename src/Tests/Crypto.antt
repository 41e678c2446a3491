-- ===== src/Tests/Crypto.antt =====
-- A signature that one adapter makes and another checks, at concrete inputs.
use network_adapter.Prelude.{
  ℕ, zero, ◌+◌, ◌*◌, ◌%◌, ◌≡◌, refl, inr, true, none, some, [], ◌∷◌, arith, Str, str_eq, ◌↔◌,
  lookup, ◌++◌, sym, suc,
}
use network_adapter.Text.{str, is_space}
use network_adapter.Json.{string, as_string}
use network_adapter.Result.{ok}
use network_adapter.Model.{bpp, resolve_caller_id}
use network_adapter.Auth.{generate_auth_header}
use network_adapter.Base64.{decode, encode}
use network_adapter.Base64.Laws.{decode-encode}
use network_adapter.Signature.{
  Libraries, IsSound, sign, sign_ack, generate_signature, hash, hash_ack,
}
use network_adapter.Signature.Validate.{
  accepted, Setting, validate, validate_ack, nanoseconds, expected_signer,
}
use network_adapter.Signature.Accepted.{Accepts, validate_iff}
use network_adapter.Signature.Handshake.{sign-validate, sign_ack-validate_ack, seconds, IsField}

abbrev total : Str → ℕ
total [] = 0
total (c ∷ s) = c + total s

-- A key is known by its first byte.
abbrev first : Str → ℕ
first [] = 0
first (c ∷ s) = c

abbrev zeros : ℕ → Str
zeros zero = []
zeros (suc n) = 0 ∷ zeros n

abbrev toy : Libraries
toy = record {
  blake2b = λ body. (total body % 256) ∷ [];
  ed25519_sign = λ seed m. ((total seed + total m) % 256) ∷ [];
  ed25519_public = λ seed. (total seed % 256) ∷ zeros 31;
  ed25519_verify = λ key m sig. str_eq sig (((first key + total m) % 256) ∷ []);
  quote = λ s. b'"' ∷ (s ++ b'"' ∷ []);
  rfc3339 = λ i. str "a date";
  context_member = λ body. ok (some ((str "bap_id", string (str "b.example")) ∷ []));
}

toy-IsSound : IsSound toy
unfolding str_eq
toy-IsSound = record {
  verifies = λ seed m h. ground arith;
  sign_bytes = λ seed m. (omega arith, tt);
  sign_not_empty = λ seed m. refl;
  public_bytes = λ seed. ground arith;
  public_length = λ seed. refl;
}

-- 100 seconds after the message was created.
abbrev setting : Setting
setting = record {
  tolerance = 5 * nanoseconds;
  now = 1100 * nanoseconds;
  remote_id = none;
  role = bpp;
}

abbrev seed : Str
seed = 7 ∷ zeros 31

abbrev private_key : Str
private_key = encode seed

abbrev public_key : Str
public_key = encode (toy.ed25519_public seed)

abbrev body : Str
body = str "{}"

abbrev sub : Str
sub = str "b.example"

abbrev signature : Str
signature = encode (toy.ed25519_sign seed (hash toy body (seconds 1000) (seconds 1301)))

abbrev ack_signature : Str
ack_signature =
    encode (toy.ed25519_sign seed (hash_ack toy body (seconds 1000) (seconds 1301) (str "c2ln")))

sub-IsField : IsField sub
unfolding is_space
sub-IsField = ((ground arith, ground arith, ground arith), ground arith)

key-IsField : IsField (str "k1")
unfolding is_space
key-IsField = ((ground arith, ground arith, ground arith), ground arith)

sub-expected : expected_signer toy setting body ≡ sub
unfolding expected_signer resolve_caller_id lookup str_eq as_string
sub-expected = refl

private_key-decode : decode private_key ≡ ok seed
private_key-decode = decode-encode seed (ground arith)

sign-signature : sign toy body private_key (seconds 1000) (seconds 1301) ≡ ok signature
unfolding sign generate_signature
sign-signature = rw private_key-decode refl

sign_ack-signature :
    sign_ack toy body (str "c2ln") private_key (seconds 1000) (seconds 1301) ≡ ok ack_signature
unfolding sign_ack generate_signature
sign_ack-signature = rw private_key-decode refl

sign-validate_example :
    validate toy setting body
      (generate_auth_header sub (str "k1") 1000 1301 signature [])
      public_key
      true
    ≡ accepted
sign-validate_example =
    sign-validate toy toy-IsSound setting sub (str "k1") sub-IsField key-IsField 1000 1301 body
      private_key seed signature true private_key-decode sign-signature
      (omega arith, omega arith, omega arith, omega arith) (inr (inr (sym sub-expected)))

sign_ack-validate_ack_example :
    validate_ack toy setting body
      (generate_auth_header sub (str "k1") 1000 1301 ack_signature (str "c2ln"))
      (str "c2ln")
      public_key
      true
    ≡ accepted
sign_ack-validate_ack_example =
    sign_ack-validate_ack toy toy-IsSound setting sub (str "k1") sub-IsField key-IsField 1000 1301
      body (str "c2ln") private_key seed ack_signature true private_key-decode sign_ack-signature
      (omega arith, omega arith, omega arith, omega arith) (inr (inr (sym sub-expected)))

abbrev header : Str
header = generate_auth_header sub (str "k1") 1000 1301 signature []

abbrev ack_header : Str
ack_header = generate_auth_header sub (str "k1") 1000 1301 ack_signature (str "c2ln")

validate_iff_example :
    (validate toy setting body header public_key true ≡ accepted)
    ↔ Accepts toy setting body (hash toy body) true header public_key
validate_iff_example = validate_iff toy setting body header public_key true
