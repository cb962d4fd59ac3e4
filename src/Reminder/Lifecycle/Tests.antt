-- ===== src/Reminder/Lifecycle/Tests.antt =====
-- A connection that registers, is asked, closes and is made again.
use agent_mesh_platform.Reminder.Lifecycle.Once.{run-requests}
use agent_mesh_platform.Reminder.Lifecycle.Stale.{run-start-old}
use agent_mesh_platform.Reminder.Lifecycle.Reachable.{run-start-IsSound}
use agent_mesh_platform.Reminder.Lifecycle.Promises.{waits, settles, answers, asked}
use agent_mesh_platform.Reminder.Lifecycle.Invariant.{engaged, IsSound}
use agent_mesh_platform.Reminder.Lifecycle.Events.{
  reply, handle_message, handle_close, after_register, resume, reconnect_fires, Event, started,
  requested, opened, received, socket_closed, reconnect_due, resumed, step, run,
}
use agent_mesh_platform.Reminder.Lifecycle.{
  Attempt, RpcId, RpcId-discrete, rpc_id_eq, caller, resolved, rejected, HubLifecycleOptions,
  initial, owns, reject_generation, delay, schedule_reconnect, connect, start, request_on, request,
}
use agent_mesh_platform.Base.Map.{get, put, drop}
use agent_mesh_platform.Base.{
  string_eq, nat_eq, select, delete, count, ℕ, ◌+◌, ◌≡◌, refl, true, false, some, List, [], ◌∷◌,
  arith, ℕ_discrete,
}

abbrev options : HubLifecycleOptions
options = record { reconnect_base_ms = 1000; reconnect_max_ms = 30000 }

abbrev old : Attempt
old = record { generation = 1; ws = 1 }

abbrev id_of : ℕ → RpcId
id_of n = record { generation = 1; sequence = n }

-- Two requests on the first connection: the first is answered, the second is not before the close.
abbrev session : List Event
session =
    opened old true true
    ∷ received old (reply (some (id_of 1)) resolved)
    ∷ resumed
    ∷ requested 7 "mesh.send" true true
    ∷ requested 7 "mesh.send" true true
    ∷ received old (reply (some (id_of 2)) resolved)
    ∷ socket_closed old
    ∷ resumed
    ∷ reconnect_due (some 2)
    ∷ []

session_state :
    let lc = run options (start options initial (some 1)) session in
    (lc.current ≡ some (record { generation = 2; ws = 2 }))
    × (lc.ready ≡ false)
    × (lc.reconnect_attempt ≡ 1)
    × (lc.settled ≡ (caller 7, rejected "hub_closed") ∷ [])
unfolding run step start connect request request_on owns handle_message handle_close resume
    after_register reject_generation schedule_reconnect reconnect_fires delay get put drop select
    delete ℕ_discrete RpcId-discrete
session_state = (refl, refl, refl, refl)

backoff_doubles : (delay options 0 ≡ 1000) × (delay options 3 ≡ 8000) × (delay options 9 ≡ 30000)
unfolding delay
backoff_doubles = (refl, refl, refl)

run-start-IsSound_example :
    IsSound options (run options (start options initial (some 1)) session)
    × (engaged (run options (start options initial (some 1)) session) ≡ true)
run-start-IsSound_example = run-start-IsSound options (some 1) session

abbrev late : List Event
late = socket_closed old ∷ received old (reply (some (id_of 3)) resolved) ∷ []

run-start-old_example :
    run options (run options (start options initial (some 1)) session) late
    ≡ run options (start options initial (some 1)) session
unfolding run step start connect request request_on owns handle_message handle_close resume
    after_register reject_generation schedule_reconnect reconnect_fires delay get put drop select
    delete ℕ_discrete RpcId-discrete
run-start-old_example = run-start-old options (some 1) session late (omega arith, (omega arith, tt))

run-requests_example :
    count (waits 7) (run options initial (started (some 1) ∷ session)).pending
      + (count (settles 7) (run options initial (started (some 1) ∷ session)).settled
          + count (answers 7) (run options initial (started (some 1) ∷ session)).outputs)
    ≡ 2
unfolding asked ℕ_discrete
run-requests_example = run-requests options 7 (started (some 1) ∷ session)
