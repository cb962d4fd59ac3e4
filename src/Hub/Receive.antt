-- ===== src/Hub/Receive.antt =====
-- packages/hub/src/rpc/receive.ts: `mesh.receive`. What `parseInt` gives, the greatest batch and the
-- seconds of a lease are arguments.
pub mod Waiting
mod Tests
use agent_mesh_platform.Hub.Connect.{delivered_row_event}
use agent_mesh_platform.Hub.Send.{Param, undefined, null, string, other, Hub}
use agent_mesh_platform.Mailbox.{ReceiveResult, receive}
use agent_mesh_platform.Store.Sources.{truthy}
use agent_mesh_platform.Base.{
  ℕ, zero, suc, min, String, Option, none, some, List, [], ◌∷◌, ◌++◌, map,
}

-- `parseInt` of a text: no number, one below 0, or another.
pub data Parsed : Type 0 where
  not_a_number negative : Parsed
  number : ℕ → Parsed

-- `limit` is none where it is absent or null, `ack_ids` where it is no array.
pub record ReceiveParams : Type 0 where
  pub limit : Option Parsed
  pub ack_ids : Option (List Param)

pub record Settings : Type 0 where
  pub max_receive_batch : ℕ
  pub lease_seconds : ℕ

pub data ReceiveAnswer : Type 0 where
  no_identity : ReceiveAnswer
  received : ReceiveResult → ReceiveAnswer

abbrev pub default_limit : ℕ
default_limit = 50

-- `Math.max(parsed || DEFAULT_LIMIT, 1)`.
unfoldable pub at_least_one : Option Parsed → ℕ
at_least_one none = default_limit
at_least_one (some not_a_number) = default_limit
at_least_one (some negative) = 1
at_least_one (some (number zero)) = default_limit
at_least_one (some (number (suc n))) = suc n

abbrev pub limit_of : Settings → ReceiveParams → ℕ
limit_of settings params = min (at_least_one params.limit) settings.max_receive_batch

-- The filter keeps what is a text.
unfoldable pub texts : List Param → List String
texts [] = []
texts (undefined ∷ ps) = texts ps
texts (null ∷ ps) = texts ps
texts (string s ∷ ps) = s ∷ texts ps
texts (other s ∷ ps) = texts ps

abbrev pub ack_ids_of : ReceiveParams → List String
ack_ids_of params = elim params.ack_ids [ none ↦ [] | some ps ↦ texts ps ]

unfoldable pub handle_receive :
    Settings → Hub → Option String → ReceiveParams → ℕ → Hub × ReceiveAnswer
handle_receive settings hub identity params now = elim (truthy identity) [
  | none ↦ (hub, no_identity)
  | some caller ↦
      let (messages, (result, settled)) =
        receive hub.messages caller (limit_of settings params) (ack_ids_of params)
          settings.lease_seconds now in
      (
        record hub { messages = messages; events = hub.events ++ map delivered_row_event settled },
        received result,
      )
]
