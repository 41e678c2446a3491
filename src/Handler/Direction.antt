-- ===== src/Handler/Direction.antt =====
-- deriveDirection and resolveDirection.
use network_adapter.Prelude.{Bool, true, false, Option, [], if◌then◌else◌, Str, get_or}
use network_adapter.Text.{str, has_prefix}
use network_adapter.Model.{Role}

-- HandlerDirection
pub data Direction : Type 0 where
  caller receiver : Direction

-- deriveDirection
unfoldable pub derive_direction : Role → Str → Direction
derive_direction Role.bap action = if has_prefix (str "on_") action then receiver else caller
derive_direction _ action = if has_prefix (str "on_") action then caller else receiver

abbrev pub is_caller : Direction → Bool
is_caller caller = true
is_caller receiver = false

abbrev pair_for : Direction → Str → Str → Str × Str
pair_for caller self remote = (self, remote)
pair_for receiver self remote = (remote, self)

-- resolveDirection: the sender and the receiver, from this module's subscriber and the remote one.
unfoldable pub resolve_direction : Str → Role → Option Str → Str → Str × Str
resolve_direction subscriber_id role remote_id action =
    pair_for (derive_direction role action) subscriber_id (get_or remote_id [])
