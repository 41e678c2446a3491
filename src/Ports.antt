-- ===== src/Ports.antt =====
-- The plugin interfaces of pkg/plugin/definition, and the encoders, that core calls.
use network_adapter.Prelude.{ℕ, Bool, Option, [], Str, get_or}
use network_adapter.Errors.{GoErr, BecknError, Status}
use network_adapter.Result.{Res}
use network_adapter.Model.{Keyset, StepContext, ResponseContext}

-- definition.Signer, with the creation and expiry times at the end.
pub record Signer : Type 0 where
  pub sign : Str → Str → ℕ → ℕ → Res Str
  pub sign_ack : Str → Str → Str → ℕ → ℕ → Res Str

-- definition.KeyManager: the signing keys of a subscriber, and the public keys of a participant.
pub record KeyManager : Type 0 where
  pub keyset : Str → Res Keyset
  pub lookup_np_keys : Str → Str → Res (Str × Str)

-- definition.SignValidator; none where the signature is valid. Both methods are given the context
-- of the request, whose body is the one that Validate checks.
pub record SignValidator : Type 0 where
  pub validate : StepContext → Str → Str → Bool → Option GoErr
  pub validate_ack : StepContext → Str → Str → Str → Str → Bool → Option GoErr

-- definition.PayloadStore: the signature of the entry for a message and an action, and the write.
pub record PayloadStore : Type 0 where
  pub get_by_message_id : Str → Str → Res (Option Str)
  pub store : StepContext → Option GoErr

-- time.Now().Unix(), read for the creation time and again for the expiry.
pub record Clock : Type 0 where
  pub created_at : ℕ
  pub valid_from : ℕ

-- A synchronous answer before its encoding: model.Response and preV2Response.
pub data Envelope : Type 0 where
  v2 : Status → Str → Option BecknError → Envelope
  pre_v2 : Status → Option BecknError → Envelope

-- encoding/json: the encoding of an answer, the string `context.<name>` of a body (none where the
-- body does not decode), and the number of members of a body that is an object.
pub record Codec : Type 0 where
  pub marshal : Envelope → Str
  pub context_field : Str → Str → Option Str
  pub member_count : Str → Res ℕ

-- A step, a response step (with none for the upstream response on the publisher path), and the
-- error of each. The new context holds the changes that the step made before it failed.
abbrev pub Step : Type 0
Step = StepContext → StepContext × Option GoErr

abbrev pub ResponseStep : Type 0
ResponseStep =
    StepContext → Option ResponseContext → StepContext × Option ResponseContext × Option GoErr

-- extractProtocolVersion, extractMessageID and extractBecknAction.
unfoldable pub extract_field : Codec → Str → Str → Str
extract_field codec name body = get_or (codec.context_field name body) []
