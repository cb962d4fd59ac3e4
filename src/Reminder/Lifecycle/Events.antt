-- ===== src/Reminder/Lifecycle/Events.antt =====
-- packages/self-reminder/src/lifecycle.ts: the handlers of the socket's events, of the timers and of
-- settled promises, and the machine that they make.
use agent_mesh_platform.Reminder.Lifecycle.{
  Attempt, RpcId, rpc_id_eq, registration, caller, Settlement, resolved, rejected, registered,
  connectivity, on_registered, closed, answered, uncaught, HubLifecycle, HubLifecycleOptions, owns,
  emit, settle, reject_generation, mark_unavailable, schedule_reconnect, connect, start, stop,
  request_on, request,
}
use agent_mesh_platform.Base.Map.{get, drop}
use agent_mesh_platform.Base.{
  if◌then◌else◌, ◌==◌, string_eq, nat_eq, is_some, ℕ, String, Bool, true, false, not, Option, none,
  some, List, [], ◌∷◌,
}

-- What a frame of the hub parses to. `null` has no members, so reading its `id` throws.
pub data Frame : Type 0 where
  not_json null no_id : Frame
  reply : Option RpcId → Settlement → Frame

unfoldable pub handle_message : HubLifecycle → Attempt → Frame → HubLifecycle
handle_message lc a frame = if not (owns lc a) then lc else elim frame [
  | not_json ↦ lc
  | null ↦ emit lc uncaught
  | no_id ↦ lc
  | reply none s ↦ lc
  | reply (some id) s ↦ elim (get id lc.pending) [
    | none ↦ lc
    | some rpc ↦
        if rpc.generation == a.generation
        then settle (record lc { pending = drop id lc.pending }) rpc.requester s
        else lc
  ]
]

unfoldable pub handle_close : HubLifecycleOptions → HubLifecycle → Attempt → HubLifecycle
handle_close options lc a =
    if not (owns lc a)
    then lc
    else let lc' = record lc { current = none; ready = false } in
      schedule_reconnect options
        (mark_unavailable (reject_generation lc' a.generation "hub_closed") "hub_closed")

unfoldable pub reject_and_reconnect :
    HubLifecycleOptions → HubLifecycle → Attempt → String → HubLifecycle
reject_and_reconnect options lc a category =
    if not (owns lc a)
    then lc
    else let lc' = record lc { current = none; ready = false } in
      schedule_reconnect options (
        emit (mark_unavailable (reject_generation lc' a.generation category) category)
          (closed a.ws 1008))

-- `register` after its `await`.
unfoldable pub after_register :
    HubLifecycleOptions → HubLifecycle → Attempt → Settlement → HubLifecycle
after_register options lc a resolved =
    if not (owns lc a)
    then lc
    else emit (emit (record lc { ready = true; reconnect_attempt = 0 }) (connectivity registered))
        on_registered
after_register options lc a (rejected category) =
    if not (owns lc a) then lc else reject_and_reconnect options lc a category

-- The next promise's continuation; a caller's own code is outside.
unfoldable pub resume : HubLifecycleOptions → HubLifecycle → HubLifecycle
resume options lc = elim lc.settled [
  | [] ↦ lc
  | (registration a, s) ∷ rest ↦ after_register options (record lc { settled = rest }) a s
  | (caller who, s) ∷ rest ↦ emit (record lc { settled = rest }) (answered who s)
]

-- The timer's callback, which runs if the timer is set.
unfoldable pub reconnect_fires : HubLifecycleOptions → HubLifecycle → Option ℕ → HubLifecycle
reconnect_fires options lc socket =
    if is_some lc.reconnect_timer
    then connect options (record lc { reconnect_timer = none }) socket
    else lc

unfoldable pub rpc_times_out : HubLifecycle → RpcId → HubLifecycle
rpc_times_out lc id = elim (get id lc.pending) [
  | none ↦ lc
  | some rpc ↦
      settle (record lc { pending = drop id lc.pending }) rpc.requester (rejected "rpc_timeout")
]

pub data Event : Type 0 where
  started : (socket : Option ℕ) → Event
  stop_called : Event
  requested : (who : ℕ) (method : String) (is_open sends : Bool) → Event
  opened : Attempt → (is_open sends : Bool) → Event
  received : Attempt → Frame → Event
  socket_closed : Attempt → Event
  socket_failed : Attempt → Event
  reconnect_due : (socket : Option ℕ) → Event
  timed_out : RpcId → Event
  resumed : Event

unfoldable pub step : HubLifecycleOptions → HubLifecycle → Event → HubLifecycle
step options lc (started socket) = start options lc socket
step options lc stop_called = stop lc
step options lc (requested who method is_open sends) = request lc who method is_open sends
step options lc (opened a is_open sends) =
    if owns lc a then request_on lc a (registration a) "mesh.connect" is_open sends else lc
step options lc (received a frame) = handle_message lc a frame
step options lc (socket_closed a) = handle_close options lc a
step options lc (socket_failed a) = lc
step options lc (reconnect_due socket) = reconnect_fires options lc socket
step options lc (timed_out id) = rpc_times_out lc id
step options lc resumed = resume options lc

unfoldable pub run : HubLifecycleOptions → HubLifecycle → List Event → HubLifecycle
run options lc [] = lc
run options lc (e ∷ es) = run options (step options lc e) es
