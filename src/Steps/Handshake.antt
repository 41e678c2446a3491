-- ===== src/Steps/Handshake.antt =====
-- A request that one adapter signs, as the adapter that receives it reads it.
use network_adapter.Prelude.{◌≡◌, ap, not, [], Str, is_empty, lookup-insert_self, get_or, false}
use network_adapter.Text.{str, Without}
use network_adapter.Result.{ok}
use network_adapter.Auth.{
  generate_auth_header, parse_header, extract_auth_signature, auth_header_includes_request_sig,
}
use network_adapter.Auth.Laws.{IsPart, generate_auth_header-read}
use network_adapter.Model.{
  StepContext, Header, Keyset, header_set, header_get, auth_header_subscriber,
}
use network_adapter.Ports.{Codec, Clock}
use network_adapter.Response.{valid_till}
use network_adapter.Steps.{
  SignStep, run_sign, signed_header, made_signature, signature_header_name,
  lookup_request_signature,
}

header_get-header_set : (k v : Str) (h : Header) → header_get k (header_set k v h) ≡ v
unfolding header_get header_set
header_get-header_set k v h = ap (λ o. get_or o []) (lookup-insert_self k v h)

module _ (codec : Codec) (clock : Clock) (s : SignStep) (ctx : StepContext) where
  abbrev request_sig : Str
  request_sig = lookup_request_signature codec s.payload_store ctx

  -- The Authorization header after the step.
  abbrev pub sent : Str
  sent = header_get auth_header_subscriber (run_sign codec clock s ctx).0.req_header

  -- The step finds the keys of its subscriber and signs; neither the subscriber, the key's name nor
  -- the signature needs quoting; and the role is not that of a gateway.
  pub record Signs (keys : Keyset) (sig : Str) : Type 0 where
    pub named : is_empty ctx.sub_id ≡ false
    pub subscriber_part : IsPart ctx.sub_id
    pub key_part : IsPart keys.unique_key_id
    pub keyset : s.km.keyset ctx.sub_id ≡ ok keys
    pub made : made_signature codec clock s ctx request_sig keys ≡ ok sig
    pub plain_sig : Without b'"' sig
    pub sender : signature_header_name codec ctx.role ≡ auth_header_subscriber

  signed_header-eq :
      (keys : Keyset) (sig : Str)
      → Signs keys sig
      → signed_header codec clock s ctx
        ≡ ok (
            generate_auth_header ctx.sub_id keys.unique_key_id clock.created_at
              (valid_till clock)
              sig
              request_sig)
  unfolding signed_header
  signed_header-eq keys sig h = rw h.keyset (rw h.made)

  sent-eq :
      (keys : Keyset) (sig : Str)
      → Signs keys sig
      → sent
        ≡ generate_auth_header ctx.sub_id keys.unique_key_id clock.created_at
            (valid_till clock)
            sig
            request_sig
  unfolding run_sign
  sent-eq keys sig h = rw h.named (
      rw (signed_header-eq keys sig h)
        (rw h.sender (header_get-header_set auth_header_subscriber _ ctx.req_header)))

  -- If the sign step finds the keys of its subscriber and signs, the subscriber is not empty, the
  -- subscriber and the key's name hold no quote, bar or white space, the signature holds no quote,
  -- and the role is not that of a gateway, then what a receiver reads from the header is that
  -- subscriber and key, the signature that was made, and whether it covers the signature of an
  -- earlier request.
  pub run_sign-read :
      (keys : Keyset) (sig : Str)
      → Signs keys sig
      → (parse_header sent
          ≡ ok (record {
            subscriber_id = ctx.sub_id;
            unique_id = keys.unique_key_id;
            algorithm = str "ed25519";
          }))
        × (extract_auth_signature sent ≡ sig)
        × (auth_header_includes_request_sig sent ≡ not (is_empty request_sig))
  run_sign-read keys sig h = rw (sent-eq keys sig h) (
      generate_auth_header-read ctx.sub_id keys.unique_key_id clock.created_at (valid_till clock)
        sig request_sig h.subscriber_part h.key_part h.plain_sig)
