-- ===== src/Signature/Header.antt =====
-- parseAuthHeader of pkg/plugin/implementation/signvalidator/signvalidator.go.
use network_adapter.Prelude.{
  Option, none, some, List, [], ◌∷◌, ◌++◌, not, if◌then◌else◌, is_empty, Str, str_eq, lookup,
  insert, get_or,
}
use network_adapter.Text.{
  cut, trim_of, str, trim_prefix, trim_space, split, GoInt, Parsed, value, syntax, range, parse_int,
}
use network_adapter.Errors.{plain, wrapped, new_sign_validation_err}
use network_adapter.Result.{Res, ok, err, ◌>>=◌}
use network_adapter.Signature.{Libraries}

-- One part of the header: `key="value"`, and no entry for a part without "=".
unfoldable pub with_part : List (Str × Str) → Str → List (Str × Str)
unfolding cut trim_of insert trim_space
with_part m part = elim (cut b'=' (trim_space part)) [
  | none ↦ m
  | some (key, quoted) ↦ insert (trim_space key) (trim_of b'"' quoted) m
]

unfoldable pub with_parts : List (Str × Str) → List Str → List (Str × Str)
unfolding with_part
with_parts m [] = m
with_parts m (part ∷ parts) = with_parts (with_part m part) parts

-- signatureMap[key]
unfoldable pub at : Str → List (Str × Str) → Str
at key m = get_or (lookup key m) []

-- The four values that parseAuthHeader returns.
pub record SignatureHeader : Type 0 where
  pub created : GoInt
  pub expires : GoInt
  pub signature : Str
  pub signer : Str

abbrev before_bar : Option (Str × Str) → Str
before_bar none = []
before_bar (some (first, rest)) = trim_space first

abbrev signature_missing : Str
signature_missing = str "AUT_SIGNATURE_MISSING"

abbrev pub signature_invalid : Str
signature_invalid = str "AUT_SIGNATURE_INVALID"

module _ (lib : Libraries) where
  -- A *strconv.NumError of ParseInt.
  abbrev num_error : Str → Str → Str
  num_error s reason = str "strconv.ParseInt: parsing " ++ (lib.quote s ++ (str ": " ++ reason))

  abbrev bad_timestamp : Str → Str → Str → Res GoInt
  bad_timestamp name s reason = err (
      new_sign_validation_err signature_invalid
        (wrapped (str "invalid " ++ (name ++ str " timestamp: ")) (plain (num_error s reason))))

  abbrev timestamp_of : Str → Str → Parsed GoInt → Res GoInt
  timestamp_of name s (value i) = ok i
  timestamp_of name s syntax = bad_timestamp name s (str "invalid syntax")
  timestamp_of name s range = bad_timestamp name s (str "value out of range")

  unfoldable pub timestamp : Str → Str → Res GoInt
  unfolding parse_int new_sign_validation_err
  timestamp name s = timestamp_of name s (parse_int s)

  unfoldable pub read_map : List (Str × Str) → Res SignatureHeader
  unfolding at cut timestamp new_sign_validation_err
  read_map m =
      if not (str_eq (at (str "algorithm") m) (str "ed25519"))
      then err (
          new_sign_validation_err signature_invalid (
            plain (
              str "unsupported algorithm "
              ++ (lib.quote (at (str "algorithm") m) ++ str ": only ed25519 is permitted"))))
      else timestamp (str "created") (at (str "created") m) >>= λ created.
          timestamp (str "expires") (at (str "expires") m) >>= λ expires.
          if is_empty (at (str "signature") m)
          then err (
              new_sign_validation_err signature_missing (plain (str "signature missing in header")))
          else ok (record {
            created = created;
            expires = expires;
            signature = at (str "signature") m;
            signer = before_bar (cut b'|' (at (str "keyId") m));
          })

  -- parseAuthHeader
  unfoldable pub parse_auth_header : Str → Res SignatureHeader
  unfolding with_parts read_map split trim_prefix
  parse_auth_header header =
      read_map (with_parts [] (split b',' (trim_prefix (str "Signature ") header)))
