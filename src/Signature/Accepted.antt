-- ===== src/Signature/Accepted.antt =====
-- What the validator accepts, and that it accepts what the signer signs: signvalidator.go and
-- signer.go.
use network_adapter.Prelude.{
  ◌+◌, ◌/◌, ◌≡◌, refl, ◌↔◌, ◌⊎◌, inl, inr, Bool, true, false, ◌==◌, ==_iff, arith, Str, [], ◌∷◌,
  is_empty, length, str_eq_iff, if◌then◌else◌, Bool-cases, not,
}
use network_adapter.Text.{str, GoInt}
use network_adapter.Errors.{GoErr}
use network_adapter.Result.{Res, ok, err}
use network_adapter.Base64.{decode}
use network_adapter.Signature.{Libraries, hash, hash_ack}
use network_adapter.Signature.Header.{SignatureHeader, parse_auth_header}
use network_adapter.Signature.Validate.{
  Verdict, accepted, refused, panicked, Setting, is_after, is_over, nanoseconds,
  check_timestamp_window, expected_signer, check_subscriber_identity, verified, decoded, parsed,
  validate, validate_ack,
}

-- A guard that refuses lets only what follows it accept.
module _ (b : Bool) (stop next : Verdict) where
  guard_iff :
      (stop ≡ accepted → ⊥)
      → ((if b then stop else next) ≡ accepted) ↔ ((b ≡ false) × (next ≡ accepted))
  guard_iff h = elim (Bool-cases b) [
    | inl stops ↦ (λ e. absurd (h (rw stops at e)), λ p. cc)
    | inr goes ↦ (λ e. (goes, rw goes at e), λ p. rw goes p.1)
  ]

not_iff : (b : Bool) → (not b ≡ false) ↔ (b ≡ true)
not_iff true = (λ e. refl, λ e. refl)
not_iff false = (λ e. cc, λ e. cc)

refused_ne : {e : GoErr} → refused e ≡ accepted → ⊥
refused_ne p = cc

panicked_ne : panicked ≡ accepted → ⊥
panicked_ne p = cc

is_empty_iff : (s : Str) → (is_empty s ≡ true) ↔ (s ≡ [])
is_empty_iff [] = (λ e. refl, λ e. refl)
is_empty_iff (c ∷ s) = (λ e. cc, λ e. cc)

module _ (lib : Libraries) (at : Setting) where
  -- The signer is the one that is expected, where one is.
  abbrev pub Fits : Str → Str → Type 0
  Fits body signer = (expected_signer lib at body ≡ []) ⊎ (signer ≡ expected_signer lib at body)

  check_subscriber_identity_iff :
      (body signer : Str)
      → (check_subscriber_identity lib at body signer ≡ accepted) ↔ Fits body signer
  unfolding check_subscriber_identity
  check_subscriber_identity_iff body signer = ground (
    arith,
    is_empty_iff (expected_signer lib at body),
    str_eq_iff signer (expected_signer lib at body),
  )

  checked_iff :
      (body signer : Str) (check_identity : Bool)
      → ((if check_identity then check_subscriber_identity lib at body signer else accepted)
          ≡ accepted)
        ↔ ((check_identity ≡ false) ⊎ Fits body signer)
  checked_iff body signer true =
      let who = check_subscriber_identity_iff body signer in
      (λ e. inr (who.0 e), λ f. elim f [ inl off ↦ absurd cc | inr fits ↦ who.1 fits ])
  checked_iff body signer false = (λ e. inl refl, λ f. refl)

  -- The times are within the window.
  abbrev pub InWindow : SignatureHeader → Type 0
  InWindow h =
      (is_after h.created (at.now + at.tolerance) ≡ false)
      × (is_over h.expires (at.now / nanoseconds) ≡ false)

  check_timestamp_window_iff :
      (prefix : Str) (h : SignatureHeader) (next : Verdict)
      → (check_timestamp_window lib at prefix h.created h.expires next ≡ accepted)
        ↔ (InWindow h × (next ≡ accepted))
  unfolding check_timestamp_window
  check_timestamp_window_iff prefix h next =
      let over = guard_iff (is_over h.expires (at.now / nanoseconds)) _ next refused_ne in
      let after = guard_iff (is_after h.created (at.now + at.tolerance)) _ _ refused_ne in
      (
        λ e. let p = after.0 e in let q = over.0 p.1 in ((p.0, q.0), q.1),
        λ (w, e). after.1 (w.0, over.1 (w.1, e)),
      )

  module _ (body : Str) (signing : GoInt → GoInt → Str) (check_identity : Bool) where
    -- What an accepted call has found: the header and its signature, a key of 32 bytes under which
    -- the signature verifies, times within the window, and the signer that is expected.
    pub record Accepts (header public_key : Str) : Type 0 where
      pub read : SignatureHeader
      pub sig : Str
      pub key : Str
      pub header_read : parse_auth_header lib header ≡ ok read
      pub sig_read : decode read.signature ≡ ok sig
      pub key_read : decode public_key ≡ ok key
      pub key_length : length key ≡ 32
      pub in_window : InWindow read
      pub verifies : lib.ed25519_verify key (signing read.created read.expires) sig ≡ true
      pub fits : (check_identity ≡ false) ⊎ Fits body read.signer

    module _ (prefix failure : Str) where
      verified_iff :
          (h : SignatureHeader) (sig key : Str)
          → (verified lib at prefix failure body signing check_identity h sig (ok key) ≡ accepted)
            ↔ ((length key ≡ 32)
                × (lib.ed25519_verify key (signing h.created h.expires) sig ≡ true)
                × ((check_identity ≡ false) ⊎ Fits body h.signer))
      verified_iff h sig key =
          let size = guard_iff (not (length key == 32)) panicked _ panicked_ne in
          let valid =
            guard_iff (not (lib.ed25519_verify key (signing h.created h.expires) sig)) _ _
              refused_ne in
          let who = checked_iff body h.signer check_identity in
          (
            λ e.
                let p = size.0 e in
                let q = valid.0 p.1 in
                ((==_iff (length key) 32).0 ((not_iff _).0 p.0), (not_iff _).0 q.0, who.0 q.1),
            λ (l, v, w).
                size.1 (
                  (not_iff _).1 ((==_iff (length key) 32).1 l),
                  valid.1 ((not_iff _).1 v, who.1 w),
                ),
          )

      module _ (header public_key : Str) where
        verified-accepted :
            (h : SignatureHeader) (sig : Str) (r : Res Str)
            → parse_auth_header lib header ≡ ok h
            → decode h.signature ≡ ok sig
            → decode public_key ≡ r
            → InWindow h
            → verified lib at prefix failure body signing check_identity h sig r ≡ accepted
            → Accepts header public_key
        verified-accepted h sig (err e) p q k w done = absurd (refused_ne done)
        verified-accepted h sig (ok key) p q k w done =
            let (l, v, f) = (verified_iff h sig key).0 done in
            record {
              read = h;
              sig = sig;
              key = key;
              header_read = p;
              sig_read = q;
              key_read = k;
              key_length = l;
              in_window = w;
              verifies = v;
              fits = f;
            }

        decoded-accepted :
            (h : SignatureHeader) (r : Res Str)
            → parse_auth_header lib header ≡ ok h
            → decode h.signature ≡ r
            → decoded lib at prefix failure body signing check_identity public_key h r ≡ accepted
            → Accepts header public_key
        decoded-accepted h (err e) p q done = absurd (refused_ne done)
        decoded-accepted h (ok sig) p q done =
            let (w, v) = (check_timestamp_window_iff prefix h _).0 done in
            verified-accepted h sig (decode public_key) p q refl w v

        parsed-accepted :
            (name : Str) (r : Res SignatureHeader)
            → parse_auth_header lib header ≡ r
            → parsed lib at prefix failure body signing check_identity name public_key r ≡ accepted
            → Accepts header public_key
        parsed-accepted name (err e) p done = absurd (refused_ne done)
        parsed-accepted name (ok h) p done = decoded-accepted h (decode h.signature) p refl done

        accepted-parsed :
            (name : Str)
            → Accepts header public_key
            → parsed lib at prefix failure body signing check_identity name public_key
                (parse_auth_header lib header)
              ≡ accepted
        accepted-parsed name a = rw a.header_read (
            rw a.sig_read (
              (check_timestamp_window_iff prefix a.read _).1 (
                a.in_window,
                rw a.key_read
                    ((verified_iff a.read a.sig a.key).1 (a.key_length, a.verifies, a.fits)),
              )))

  -- Validate accepts exactly if the header is read, its signature and the public key decode, the
  -- key has 32 bytes, the times are within the window, the signature verifies over the body's
  -- digest and the times, and the signer is the caller that the context or the body declares, where
  -- the identity is checked and one is declared.
  pub validate_iff :
      (body header public_key : Str) (check_identity : Bool)
      → (validate lib at body header public_key check_identity ≡ accepted)
        ↔ Accepts body (hash lib body) check_identity header public_key
  unfolding validate
  validate_iff body header public_key check_identity = (
    parsed-accepted body (hash lib body) check_identity (str "signature")
        (str "signature verification failed") header public_key (str "header")
        (parse_auth_header lib header) refl,
    accepted-parsed body (hash lib body) check_identity (str "signature")
        (str "signature verification failed") header public_key (str "header"),
  )

  -- ValidateAck accepts exactly in the same cases, over the body that it is given and the lines
  -- with the request signature.
  pub validate_ack_iff :
      (body header request_sig public_key : Str) (check_identity : Bool)
      → (validate_ack lib at body header request_sig public_key check_identity ≡ accepted)
        ↔ Accepts body
            (λ created expires. hash_ack lib body created expires request_sig)
            check_identity
            header
            public_key
  unfolding validate_ack
  validate_ack_iff body header request_sig public_key check_identity = (
    parsed-accepted body _ check_identity (str "AckSignature")
        (str "AckSignature verification failed") header public_key (str "Signature header")
        (parse_auth_header lib header) refl,
    accepted-parsed body _ check_identity (str "AckSignature")
        (str "AckSignature verification failed") header public_key (str "Signature header"),
  )
