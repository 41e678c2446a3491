-- ===== src/Auth/Laws.antt =====
-- The headers that one adapter writes are read back by the other.
use network_adapter.Prelude.{
  ℕ, ◌≡◌, refl, ◌≢◌, ◌∙◌, ap, inl, inr, false, not, some, [], ◌∷◌, ◌++◌, append_assoc, arith, Str,
  All-append, if◌then◌else◌, is_empty, get_or,
}
use network_adapter.Text.{
  str, after_first, before_byte, before_byte-append, contains, trim_space, split, split-append,
  NoSpace, Without, decimal, is_space,
}
use network_adapter.Result.{ok}
use network_adapter.Auth.{
  signature_text, three_lines, four_lines, generate_auth_header, build_signature_header,
  quoted_after, auth_header_includes_request_sig, extract_auth_signature, parse_key_id,
  parse_header, lists_request_sig,
}
use network_adapter.Auth.Search.{
  Holds, after_first_past, after_first_skip, decimal-Without, decimal-Without_above,
  trim_space_of_NoSpace,
}

-- A part of a key id: no quote, no bar and no white space in it.
abbrev pub IsPart : Str → Type 0
IsPart s = Without b'"' s × Without b'|' s × NoSpace s

-- The rest of a header behind the key id.
tail_text : ℕ → ℕ → Str → Str → Str
tail_text c v headers sig =
    str ",algorithm=\"ed25519\",created=\""
    ++ (decimal c
        ++ (str "\",expires=\""
            ++ (decimal v
                ++ (str "\",headers=\""
                    ++ (headers ++ (str "\",signature=\"" ++ (sig ++ b'"' ∷ [])))))))

ed25519_spaces : NoSpace (b'|' ∷ str "ed25519")
unfolding is_space
ed25519_spaces = (refl, (refl, (refl, (refl, (refl, (refl, (refl, (refl, tt))))))))

not-empty-append : (w : Str) (c : ℕ) (s : Str) → is_empty (w ++ c ∷ s) ≡ false
not-empty-append [] c s = refl
not-empty-append (d ∷ w) c s = refl

quoted_after_lem :
    (m h : Str) {rest : Str}
    → after_first m h ≡ some rest
    → quoted_after m h ≡ before_byte b'"' rest
unfolding quoted_after
quoted_after_lem m h e = ground arith

abbrev sig_marker : Str
sig_marker = str ",signature=\""

abbrev headers_marker : Str
headers_marker = str "headers=\""

sig_marker-Holds : Holds b'"' sig_marker
sig_marker-Holds = inr (inr (inr (inr (inr (inr (inr (inr (inr (inr (inr (inl refl)))))))))))

sig_marker-Without : Without b'|' sig_marker
sig_marker-Without = omega arith

headers_marker-Holds : Holds b'"' headers_marker
headers_marker-Holds = omega arith

headers_marker-Without : Without b'|' headers_marker
headers_marker-Without = omega arith

module _ (sub key : Str) (created expires : ℕ) (headers sig : Str) where
  abbrev key_id_text : Str
  key_id_text = sub ++ (b'|' ∷ (key ++ (b'|' ∷ str "ed25519")))

  signature_text-split :
      signature_text sub key created expires headers sig
      ≡ str "Signature keyId=\"" ++ (key_id_text ++ (b'"' ∷ tail_text created expires headers sig))
  unfolding signature_text tail_text
  signature_text-split = ap (λ t. str "Signature keyId=\"" ++ t) (simp append_assoc)

  Without-key_id_text : IsPart sub → IsPart key → Without b'"' key_id_text
  Without-key_id_text (p, q, r) (p', q', r') =
      All-append (λ c. c ≢ b'"') sub _ p
        (omega arith, All-append (λ c. c ≢ b'"') key _ p' (omega arith))

  NoSpace-key_id_text : IsPart sub → IsPart key → NoSpace key_id_text
  unfolding is_space
  NoSpace-key_id_text (p, q, r) (p', q', r') =
      All-append (λ c. is_space c ≡ false) sub _ r
        (refl, All-append (λ c. is_space c ≡ false) key _ r' ed25519_spaces)

  quoted_after-key_id :
      IsPart sub
      → IsPart key
      → quoted_after (str "keyId=\"") (signature_text sub key created expires headers sig)
        ≡ some key_id_text
  unfolding quoted_after after_first before_byte
  quoted_after-key_id hs hk = rw signature_text-split (
      before_byte-append b'"' key_id_text (tail_text created expires headers sig)
        (Without-key_id_text hs hk))

  parse_key_id-key_id_text :
      IsPart sub
      → IsPart key
      → parse_key_id key_id_text
        ≡ ok (record { subscriber_id = sub; unique_id = key; algorithm = str "ed25519" })
  unfolding parse_key_id split trim_space
  parse_key_id-key_id_text (p, q, r) (p', q', r') =
      rw (not-empty-append sub b'|' (key ++ (b'|' ∷ str "ed25519"))) (
        rw (split-append b'|' sub (key ++ (b'|' ∷ str "ed25519")) q) (
          rw (split-append b'|' key (str "ed25519") q')
            (rw (trim_space_of_NoSpace sub r) (rw (trim_space_of_NoSpace key r') refl))))

  parse_header-signature_text :
      IsPart sub
      → IsPart key
      → parse_header (signature_text sub key created expires headers sig)
        ≡ ok (record { subscriber_id = sub; unique_id = key; algorithm = str "ed25519" })
  unfolding parse_header
  parse_header-signature_text hs hk = rw (quoted_after-key_id hs hk) (
      rw (trim_space_of_NoSpace key_id_text (NoSpace-key_id_text hs hk))
        (parse_key_id-key_id_text hs hk))

  -- Both markers behind the key id are found behind the two dates.
  after_first-sig_marker :
      IsPart sub
      → IsPart key
      → Without b',' headers
      → after_first sig_marker (signature_text sub key created expires headers sig)
        ≡ some (sig ++ b'"' ∷ [])
  unfolding signature_text after_first
  after_first-sig_marker hs hk hh =
      after_first_past b'"' b'|' sig_marker sub _ sig_marker-Holds sig_marker-Without hs.0
      ∙ (after_first_past b'"' b'|' sig_marker key _ sig_marker-Holds sig_marker-Without hk.0
          ∙ (after_first_skip b',' (str "signature=\"") (decimal created) _
                (decimal-Without b',' created refl)
              ∙ (after_first_skip b',' (str "signature=\"") (decimal expires) _
                    (decimal-Without b',' expires refl)
                  ∙ after_first_skip b',' (str "signature=\"") headers _ hh)))

  after_first-headers_marker :
      IsPart sub
      → IsPart key
      → after_first headers_marker (signature_text sub key created expires headers sig)
        ≡ some (headers ++ (str "\",signature=\"" ++ (sig ++ b'"' ∷ [])))
  unfolding signature_text after_first
  after_first-headers_marker hs hk =
      after_first_past b'"' b'|' headers_marker sub _ headers_marker-Holds headers_marker-Without
        hs.0
      ∙ (after_first_past b'"' b'|' headers_marker key _ headers_marker-Holds headers_marker-Without
            hk.0
          ∙ (after_first_skip b'h' (str "eaders=\"") (decimal created) _
                (decimal-Without_above b'h' created refl)
              ∙ after_first_skip b'h' (str "eaders=\"") (decimal expires) _
                  (decimal-Without_above b'h' expires refl)))

  extract_auth_signature-signature_text :
      IsPart sub
      → IsPart key
      → Without b',' headers
      → Without b'"' sig
      → extract_auth_signature (signature_text sub key created expires headers sig) ≡ sig
  unfolding extract_auth_signature
  extract_auth_signature-signature_text hs hk hh h =
      ap (λ o. get_or o [])
        (quoted_after_lem sig_marker (signature_text sub key created expires headers sig)
            (after_first-sig_marker hs hk hh)
          ∙ before_byte-append b'"' sig [] h)

  includes-signature_text :
      IsPart sub
      → IsPart key
      → Without b'"' headers
      → auth_header_includes_request_sig (signature_text sub key created expires headers sig)
        ≡ contains (str "request-signature") headers
  unfolding auth_header_includes_request_sig
  includes-signature_text hs hk hh = ap lists_request_sig (
      quoted_after_lem headers_marker (signature_text sub key created expires headers sig)
        (after_first-headers_marker hs hk)
      ∙ before_byte-append b'"' headers (str ",signature=\"" ++ (sig ++ b'"' ∷ [])) hh)

pub signed_headers-Without :
    (r : Str) → Without b',' (if is_empty r then three_lines else four_lines)
signed_headers-Without [] = omega arith
signed_headers-Without (c ∷ r) = omega arith

pub signed_headers-Without_quote :
    (r : Str) → Without b'"' (if is_empty r then three_lines else four_lines)
signed_headers-Without_quote [] = omega arith
signed_headers-Without_quote (c ∷ r) = omega arith

signed_headers-contains :
    (r : Str)
    → contains (str "request-signature") (if is_empty r then three_lines else four_lines)
      ≡ not (is_empty r)
unfolding contains
signed_headers-contains [] = refl
signed_headers-contains (c ∷ r) = refl

-- What parseHeader, extractAuthSignature and authHeaderIncludesRequestSig read from the header of
-- generateAuthHeader is what was written: the subscriber, the key and the algorithm; the
-- signature; and whether a request signature was signed. The parts of the key id hold no quote, no
-- bar and no white space, and the signature holds no quote.
pub generate_auth_header-read :
    (sub key : Str) (created expires : ℕ) (sig request_sig : Str)
    → IsPart sub
    → IsPart key
    → Without b'"' sig
    → (parse_header (generate_auth_header sub key created expires sig request_sig)
        ≡ ok (record { subscriber_id = sub; unique_id = key; algorithm = str "ed25519" }))
      × (extract_auth_signature (generate_auth_header sub key created expires sig request_sig)
          ≡ sig)
      × (auth_header_includes_request_sig
            (generate_auth_header sub key created expires sig request_sig)
          ≡ not (is_empty request_sig))
unfolding generate_auth_header
generate_auth_header-read sub key created expires sig r hs hk h = (
  parse_header-signature_text sub key created expires _ sig hs hk,
  extract_auth_signature-signature_text sub key created expires _ sig hs hk
      (signed_headers-Without r) h,
  includes-signature_text sub key created expires _ sig hs hk (signed_headers-Without_quote r)
      ∙ signed_headers-contains r,
)

-- The same for the Signature header of a response, which always covers the request signature.
pub build_signature_header-read :
    (sub key : Str) (created expires : ℕ) (sig : Str)
    → IsPart sub
    → IsPart key
    → Without b'"' sig
    → (parse_header (build_signature_header sub key created expires sig)
        ≡ ok (record { subscriber_id = sub; unique_id = key; algorithm = str "ed25519" }))
      × (extract_auth_signature (build_signature_header sub key created expires sig) ≡ sig)
unfolding build_signature_header
build_signature_header-read sub key created expires sig hs hk h = (
  parse_header-signature_text sub key created expires _ sig hs hk,
  extract_auth_signature-signature_text sub key created expires _ sig hs hk
      (signed_headers-Without (str "x")) h,
)
