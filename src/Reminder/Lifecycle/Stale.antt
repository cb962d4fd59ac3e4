-- ===== src/Reminder/Lifecycle/Stale.antt =====
-- An old socket cannot touch a newer connection.
use agent_mesh_platform.Reminder.Lifecycle.Reachable.{run-start-IsSound}
use agent_mesh_platform.Reminder.Lifecycle.Invariant.{IsSound}
use agent_mesh_platform.Reminder.Lifecycle.Events.{
  handle_message, handle_close, Event, started, stop_called, requested, opened, received,
  socket_closed, socket_failed, reconnect_due, timed_out, resumed, step, run,
}
use agent_mesh_platform.Reminder.Lifecycle.{
  Attempt, HubLifecycle, HubLifecycleOptions, initial, owns, start,
}
use agent_mesh_platform.Base.Map.{}
use agent_mesh_platform.Base.{Every, ℕ, ◌<◌, ◌≡◌, refl, false, Option, List, [], ◌∷◌, arith}

-- An event of a socket of an earlier generation than `generation`.
abbrev pub IsOld : ℕ → Event → Type 0
IsOld generation (started socket) = ⊥
IsOld generation stop_called = ⊥
IsOld generation (requested who method is_open sends) = ⊥
IsOld generation (opened a is_open sends) = a.generation < generation
IsOld generation (received a frame) = a.generation < generation
IsOld generation (socket_closed a) = a.generation < generation
IsOld generation (socket_failed a) = a.generation < generation
IsOld generation (reconnect_due socket) = ⊥
IsOld generation (timed_out id) = ⊥
IsOld generation resumed = ⊥

module _ (options : HubLifecycleOptions) where
  owns-old :
      (lc : HubLifecycle) (a : Attempt)
      → IsSound options lc
      → a.generation < lc.generation
      → owns lc a ≡ false
  unfolding owns
  owns-old lc a h old = ground arith

  step-old :
      (lc : HubLifecycle) (e : Event)
      → IsSound options lc
      → IsOld lc.generation e
      → step options lc e ≡ lc
  unfolding step handle_message handle_close
  step-old lc (started socket) h old = elim old [ ]
  step-old lc stop_called h old = elim old [ ]
  step-old lc (requested who method is_open sends) h old = elim old [ ]
  step-old lc (reconnect_due socket) h old = elim old [ ]
  step-old lc (timed_out id) h old = elim old [ ]
  step-old lc resumed h old = elim old [ ]
  step-old lc (opened a is_open sends) h old = ground (arith, owns-old lc a h old)
  step-old lc (received a frame) h old = ground (arith, owns-old lc a h old)
  step-old lc (socket_closed a) h old = ground (arith, owns-old lc a h old)
  step-old lc (socket_failed a) h old = refl

  run-old :
      (lc : HubLifecycle) (es : List Event)
      → IsSound options lc
      → Every (IsOld lc.generation) es
      → run options lc es ≡ lc
  unfolding run
  run-old lc [] h old = refl
  run-old lc (e ∷ es) h old = rw (step-old lc e h old.0) (run-old lc es h old.1)

  -- At any time after the first `start`, opening, messages, closing and errors of sockets of earlier
  -- generations, as many as may come and in any order, change nothing.
  pub run-start-old :
      (socket : Option ℕ) (before es : List Event)
      → Every (IsOld (run options (start options initial socket) before).generation) es
      → run options (run options (start options initial socket) before) es
        ≡ run options (start options initial socket) before
  run-start-old socket before es old =
      run-old (run options (start options initial socket) before) es
        (run-start-IsSound options socket before).0 old
