-- ===== src/Reminder/Lifecycle.antt =====
-- packages/self-reminder/src/lifecycle.ts: the one connection of the service to the hub. A handler runs
-- to its end; a promise that was settled is resumed by a later event, `resumed`, in the order of
-- settlement. What the socket and the runtime decide stands in the event: the socket that
-- `createSocket` gives (none where it throws), whether a socket is open and whether a send throws. The
-- text `generation-sequence` of a request is the pair of its numbers. Hooks do not call back.
pub mod Events
pub mod Invariant
pub mod Requests
pub mod Reachable
pub mod Stale
pub mod Promises
pub mod Accounts
pub mod Once
mod Tests
use agent_mesh_platform.Base.Map.{put, drop}
use agent_mesh_platform.Base.{
  if◌then◌else◌, Eq, ◌==◌, string_eq, nat_eq, select, delete, is_some, ℕ, ◌+◌, ◌*◌, ◌^◌, min,
  String, ◌≡◌, ap, Bool, true, false, not, ◌&&◌, ◌||◌, Option, none, some, List, [], ◌∷◌, ◌++◌, map,
  ℕ_discrete,
}

pub record Attempt : Type 0 where
  pub generation : ℕ
  pub ws : ℕ

pub record RpcId : Type 0 where
  pub generation : ℕ
  pub sequence : ℕ

same_id :
    (a b : RpcId) → Dec (a.generation ≡ b.generation) → Dec (a.sequence ≡ b.sequence) → Dec (a ≡ b)
same_id a b (yes k) (yes r) = yes cc
same_id a b (yes k) (no r) = no (λ e. r (ap (λ (c : RpcId). c.sequence) e))
same_id a b (no k) r = no (λ e. k (ap (λ (c : RpcId). c.generation) e))

unfoldable pub RpcId-discrete : Discrete RpcId
unfolding same_id
RpcId-discrete a b =
    same_id a b (ℕ_discrete a.generation b.generation) (ℕ_discrete a.sequence b.sequence)

instance abbrev pub rpc_id_eq : Eq RpcId
rpc_id_eq = record { dec = RpcId-discrete }

-- Whose promise it is: the registration's, or that of a caller of `request`.
pub data Requester : Type 0 where
  registration : Attempt → Requester
  caller : ℕ → Requester

pub data Settlement : Type 0 where
  resolved : Settlement
  rejected : (category : String) → Settlement

pub record PendingRpc : Type 0 where
  pub generation : ℕ
  pub requester : Requester

pub data Connectivity : Type 0 where
  connecting registered unavailable : Connectivity

-- What the lifecycle does to the outside.
pub data Output : Type 0 where
  connectivity : Connectivity → Output
  on_unavailable : (category : String) → Output
  on_registered : Output
  sent : RpcId → (method : String) → Output
  closed : (ws code : ℕ) → Output
  answered : ℕ → Settlement → Output
  uncaught : Output

-- `reconnect_timer` holds the delay that the timer was set with.
pub record HubLifecycle : Type 0 where
  pub generation : ℕ
  pub current : Option Attempt
  pub reconnect_timer : Option ℕ
  pub reconnect_attempt : ℕ
  pub ready : Bool
  pub stopped : Bool
  pub sequence : ℕ
  pub pending : List (RpcId × PendingRpc)
  pub settled : List (Requester × Settlement)
  pub outputs : List Output

pub record HubLifecycleOptions : Type 0 where
  pub reconnect_base_ms : ℕ
  pub reconnect_max_ms : ℕ

-- The fields' initial values.
abbrev pub initial : HubLifecycle
initial = record {
  generation = 0;
  current = none;
  reconnect_timer = none;
  reconnect_attempt = 0;
  ready = false;
  stopped = false;
  sequence = 0;
  pending = [];
  settled = [];
  outputs = [];
}

unfoldable pub owns : HubLifecycle → Attempt → Bool
owns lc a = elim lc.current [ none ↦ false | some c ↦ c.generation == a.generation && c.ws == a.ws ]

abbrev emit : HubLifecycle → Output → HubLifecycle
emit lc o = record lc { outputs = lc.outputs ++ o ∷ [] }

abbrev settle : HubLifecycle → Requester → Settlement → HubLifecycle
settle lc r s = record lc { settled = lc.settled ++ (r, s) ∷ [] }

abbrev pub of_generation : ℕ → RpcId × PendingRpc → Bool
of_generation generation e = e.1.generation == generation

unfoldable pub reject_generation : HubLifecycle → ℕ → String → HubLifecycle
reject_generation lc generation category = record lc {
  pending = delete (of_generation generation) lc.pending;
  settled =
      lc.settled
      ++ map (λ e. (e.1.requester, rejected category))
          (select (of_generation generation) lc.pending);
}

abbrev mark_unavailable : HubLifecycle → String → HubLifecycle
mark_unavailable lc category = emit (emit lc (connectivity unavailable)) (on_unavailable category)

-- `Math.min(reconnectMaxMs, reconnectBaseMs * 2 ** Math.min(attempt, 10))`.
unfoldable pub delay : HubLifecycleOptions → ℕ → ℕ
delay options attempt =
    min options.reconnect_max_ms (options.reconnect_base_ms * 2 ^ min attempt 10)

unfoldable pub schedule_reconnect : HubLifecycleOptions → HubLifecycle → HubLifecycle
schedule_reconnect options lc = if lc.stopped || is_some lc.reconnect_timer then lc else record lc {
  reconnect_attempt = lc.reconnect_attempt + 1;
  reconnect_timer = some (delay options lc.reconnect_attempt);
}

unfoldable pub connect : HubLifecycleOptions → HubLifecycle → Option ℕ → HubLifecycle
connect options lc socket =
    if lc.stopped || is_some lc.current || is_some lc.reconnect_timer
    then lc
    else let generation = lc.generation + 1 in
      let lc' = record lc { generation = generation } in
      elim socket [
        | none ↦ schedule_reconnect options (mark_unavailable lc' "connect_create_failed")
        | some ws ↦
            emit
              (record lc' {
                current = some (record { generation = generation; ws = ws });
                ready = false;
              })
              (connectivity connecting)
      ]

unfoldable pub start : HubLifecycleOptions → HubLifecycle → Option ℕ → HubLifecycle
start options lc socket = connect options (record lc { stopped = false }) socket

unfoldable pub stop : HubLifecycle → HubLifecycle
stop lc =
    let lc' = record lc { stopped = true; reconnect_timer = none; current = none; ready = false } in
    elim lc.current [
      | none ↦ lc'
      | some a ↦ emit (reject_generation lc' a.generation "stopped") (closed a.ws 1000)
    ]

unfoldable pub request_on : HubLifecycle → Attempt → Requester → String → Bool → Bool → HubLifecycle
request_on lc a requester method is_open sends =
    if not (owns lc a) || not is_open
    then settle lc requester (rejected "hub_unavailable")
    else let sequence = lc.sequence + 1 in
      let id : RpcId = record { generation = a.generation; sequence = sequence } in
      let rpc : PendingRpc = record { generation = a.generation; requester = requester } in
      let lc' = record lc { sequence = sequence; pending = put id rpc lc.pending } in
      if sends
      then emit lc' (sent id method)
      else settle (record lc' { pending = drop id lc'.pending }) requester
          (rejected "rpc_send_failed")

unfoldable pub request : HubLifecycle → ℕ → String → Bool → Bool → HubLifecycle
request lc who method is_open sends = elim lc.current [
  | none ↦ settle lc (caller who) (rejected "hub_unavailable")
  | some a ↦
      if lc.ready
      then request_on lc a (caller who) method is_open sends
      else settle lc (caller who) (rejected "hub_unavailable")
]
