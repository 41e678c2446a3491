-- ===== src/Signature/ReadBack.antt =====
-- parseAuthHeader of signvalidator.go reads the headers that the handler writes.
use network_adapter.Prelude.{
  ℕ, ◌<◌, ◌^◌, ◌≡◌, refl, ◌≢◌, ap, ◌∙◌, false, map, List, [], ◌∷◌, ◌++◌, append_assoc, arith, Str,
  All, All-append, is_empty, insert, lookup, str_eq,
}
use network_adapter.Text.{str, trim_prefix, is_space, join, Without, decimal, parse_int-decimal}
use network_adapter.Result.{ok}
use network_adapter.Auth.{signature_text}
use network_adapter.Auth.Laws.{IsPart}
use network_adapter.Auth.Search.{trim_space_of_NoSpace, decimal-Without}
use network_adapter.Signature.{Libraries}
use network_adapter.Signature.Header.{at, read_map, timestamp, parse_auth_header}
use network_adapter.Signature.Parts.{cut-append, inserted, IsField, read-fields, part_of}

module _ (sub key : Str) (created expires : ℕ) (headers sig : Str) where
  abbrev key_id : Str
  key_id = sub ++ (b'|' ∷ (key ++ (b'|' ∷ str "ed25519")))

  -- The entries behind the key id that the header holds.
  abbrev others : List (Str × Str)
  others =
      (str "algorithm", str "ed25519")
      ∷ (str "created", decimal created)
      ∷ (str "expires", decimal expires)
      ∷ (str "headers", headers)
      ∷ (str "signature", sig)
      ∷ []

  abbrev entries : List (Str × Str)
  entries = (str "keyId", key_id) ∷ others

  signature_text-join :
      signature_text sub key created expires headers sig
      ≡ str "Signature " ++ join (str ",") (map part_of entries)
  unfolding signature_text join
  signature_text-join = ap (λ t. str "Signature keyId=\"" ++ t) (simp append_assoc)

  -- No part of the header needs quoting, and the signature is not empty.
  pub record IsPlain : Type 0 where
    pub sub_part : IsPart sub
    pub key_part : IsPart key
    pub sub_comma : Without b',' sub
    pub key_comma : Without b',' key
    pub headers_quote : Without b'"' headers
    pub headers_comma : Without b',' headers
    pub sig_quote : Without b'"' sig
    pub sig_comma : Without b',' sig
    pub sig_some : is_empty sig ≡ false

  Without-key_id :
      (b : ℕ) → Without b (b'|' ∷ str "ed25519") → Without b sub → Without b key → Without b key_id
  Without-key_id b alg hs hk =
      All-append (λ c. c ≢ b) sub _ hs (alg.0, All-append (λ c. c ≢ b) key _ hk alg)

  entries-IsField : IsPlain → All IsField entries
  unfolding is_space
  entries-IsField h = (
    (
      (refl, (refl, (refl, (refl, (refl, tt))))),
      omega arith,
      omega arith,
      Without-key_id b'"' (omega arith) h.sub_part.0 h.key_part.0,
      Without-key_id b',' (omega arith) h.sub_comma h.key_comma,
    ),
    (
      (
        (refl, (refl, (refl, (refl, (refl, (refl, (refl, (refl, (refl, tt))))))))),
        omega arith,
        omega arith,
        omega arith,
        omega arith,
      ),
      (
        (
          (refl, (refl, (refl, (refl, (refl, (refl, (refl, tt))))))),
          omega arith,
          omega arith,
          decimal-Without b'"' created refl,
          decimal-Without b',' created refl,
        ),
        (
          (
            (refl, (refl, (refl, (refl, (refl, (refl, (refl, tt))))))),
            omega arith,
            omega arith,
            decimal-Without b'"' expires refl,
            decimal-Without b',' expires refl,
          ),
          (
            (
              (refl, (refl, (refl, (refl, (refl, (refl, (refl, tt))))))),
              omega arith,
              omega arith,
              h.headers_quote,
              h.headers_comma,
            ),
            (
              (
                (refl, (refl, (refl, (refl, (refl, (refl, (refl, (refl, (refl, tt))))))))),
                omega arith,
                omega arith,
                h.sig_quote,
                h.sig_comma,
              ),
              tt,
            ),
          ),
        ),
      ),
    ),
  )

  inserted-entries : inserted [] entries ≡ entries
  unfolding insert str_eq
  inserted-entries = refl

  module _ (lib : Libraries) where
    parse_auth_header-map :
        IsPlain
        → parse_auth_header lib (signature_text sub key created expires headers sig)
          ≡ read_map lib entries
    unfolding parse_auth_header trim_prefix
    parse_auth_header-map h =
        ap (parse_auth_header lib) signature_text-join
        ∙ ap (read_map lib)
            (read-fields (str "keyId", key_id) others (entries-IsField h) ∙ inserted-entries)

    timestamp-decimal :
        (name : Str) (n : ℕ)
        → n < 2 ^ 63
        → timestamp lib name (decimal n) ≡ ok (record { negative = false; magnitude = n })
    unfolding timestamp
    timestamp-decimal name n h = rw (parse_int-decimal n h)

    -- The header that the handler writes is read back: its times, its signature and its subscriber.
    pub parse_auth_header-signature_text :
        IsPlain
        → created < 2 ^ 63
        → expires < 2 ^ 63
        → parse_auth_header lib (signature_text sub key created expires headers sig)
          ≡ ok (record {
            created = record { negative = false; magnitude = created };
            expires = record { negative = false; magnitude = expires };
            signature = sig;
            signer = sub;
          })
    unfolding read_map at lookup str_eq
    parse_auth_header-signature_text h hc he =
        parse_auth_header-map h
        ∙ rw (timestamp-decimal (str "created") created hc) (
            rw (timestamp-decimal (str "expires") expires he) (
              rw h.sig_some (
                rw (cut-append b'|' sub (key ++ (b'|' ∷ str "ed25519")) h.sub_part.1)
                  (rw (trim_space_of_NoSpace sub h.sub_part.2) refl))))
