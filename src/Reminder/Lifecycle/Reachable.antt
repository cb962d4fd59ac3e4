-- ===== src/Reminder/Lifecycle/Reachable.antt =====
-- Whatever the sequence of events, the lifecycle is stopped, connected or waiting to reconnect.
use agent_mesh_platform.Reminder.Lifecycle.Requests.{
  request_on-IsSound, request-IsSound, handle_message-IsSound, rpc_times_out-IsSound,
}
use agent_mesh_platform.Reminder.Lifecycle.Invariant.{
  engaged, IsSound, owner_of, connect-IsSound, start-IsSound, leave-IsSound, stop-IsSound,
}
use agent_mesh_platform.Reminder.Lifecycle.Events.{
  handle_close, reject_and_reconnect, after_register, resume, reconnect_fires, Event, started,
  stop_called, requested, opened, received, socket_closed, socket_failed, reconnect_due, timed_out,
  resumed, step, run,
}
use agent_mesh_platform.Reminder.Lifecycle.{
  Attempt, Requester, registration, caller, Settlement, resolved, rejected, HubLifecycle,
  HubLifecycleOptions, initial, owns, reject_generation, start,
}
use agent_mesh_platform.Base.Map.{}
use agent_mesh_platform.Base.{
  Bool-cases, ℕ, String, ◌≡◌, refl, inl, inr, true, Option, none, List, [], ◌∷◌, arith,
}

module _ (options : HubLifecycleOptions) where
  handle_close-IsSound :
      (lc : HubLifecycle) (a : Attempt)
      → IsSound options lc
      → IsSound options (handle_close options lc a)
        × (engaged (handle_close options lc a) ≡ engaged lc)
  unfolding handle_close reject_generation
  handle_close-IsSound lc a h = elim (Bool-cases (owns lc a)) [
    | inr other ↦ rw other (h, refl)
    | inl own ↦ rw own (leave-IsSound options lc _ a own h refl refl refl refl refl refl)
  ]

  reject_and_reconnect-IsSound :
      (lc : HubLifecycle) (a : Attempt) (category : String)
      → IsSound options lc
      → IsSound options (reject_and_reconnect options lc a category)
        × (engaged (reject_and_reconnect options lc a category) ≡ engaged lc)
  unfolding reject_and_reconnect reject_generation
  reject_and_reconnect-IsSound lc a category h = elim (Bool-cases (owns lc a)) [
    | inr other ↦ rw other (h, refl)
    | inl own ↦ rw own (leave-IsSound options lc _ a own h refl refl refl refl refl refl)
  ]

  after_register-IsSound :
      (lc : HubLifecycle) (a : Attempt) (s : Settlement)
      → IsSound options lc
      → IsSound options (after_register options lc a s)
        × (engaged (after_register options lc a s) ≡ engaged lc)
  unfolding after_register
  after_register-IsSound lc a resolved h = ground (arith, owner_of lc a)
  after_register-IsSound lc a (rejected category) h =
      ground (arith, reject_and_reconnect-IsSound lc a category h)

  resume_of-IsSound :
      (lc : HubLifecycle) (rs : List (Requester × Settlement))
      → lc.settled ≡ rs
      → IsSound options lc
      → IsSound options (resume options lc) × (engaged (resume options lc) ≡ engaged lc)
  unfolding resume
  resume_of-IsSound lc [] e h = rw (e, resume) (h, refl)
  resume_of-IsSound lc ((registration a, s) ∷ rest) e h =
      rw (e, resume) (after_register-IsSound (record lc { settled = rest }) a s (ground arith))
  resume_of-IsSound lc ((caller who, s) ∷ rest) e h = rw (e, resume) (ground arith)

  reconnect_fires-IsSound :
      (lc : HubLifecycle) (socket : Option ℕ)
      → IsSound options lc
      → IsSound options (reconnect_fires options lc socket)
        × (engaged (reconnect_fires options lc socket) ≡ engaged lc)
  unfolding reconnect_fires
  reconnect_fires-IsSound lc socket h =
      ground (arith, connect-IsSound options (record lc { reconnect_timer = none }) socket)

  pub step-IsSound :
      (lc : HubLifecycle) (e : Event)
      → IsSound options lc
      → IsSound options (step options lc e)
        × (engaged lc ≡ true → engaged (step options lc e) ≡ true)
  unfolding step
  step-IsSound lc (started socket) h = ground (arith, start-IsSound options lc socket)
  step-IsSound lc stop_called h = ground (arith, stop-IsSound options lc)
  step-IsSound lc (requested who method is_open sends) h =
      ground (arith, request-IsSound options lc who method is_open sends)
  step-IsSound lc (opened a is_open sends) h =
      ground (arith, request_on-IsSound options lc a (registration a) "mesh.connect" is_open sends)
  step-IsSound lc (received a frame) h = ground (arith, handle_message-IsSound options lc a frame)
  step-IsSound lc (socket_closed a) h = ground (arith, handle_close-IsSound lc a)
  step-IsSound lc (socket_failed a) h = ground arith
  step-IsSound lc (reconnect_due socket) h = ground (arith, reconnect_fires-IsSound lc socket)
  step-IsSound lc (timed_out id) h = ground (arith, rpc_times_out-IsSound options lc id)
  step-IsSound lc resumed h = ground (arith, resume_of-IsSound lc lc.settled refl)

  run-IsSound :
      (lc : HubLifecycle) (es : List Event)
      → IsSound options lc
      → engaged lc ≡ true
      → IsSound options (run options lc es) × (engaged (run options lc es) ≡ true)
  unfolding run
  run-IsSound lc [] h k = (h, k)
  run-IsSound lc (e ∷ es) h k =
      let (h', k') = step-IsSound lc e h in run-IsSound (step options lc e) es h' (k' k)

  -- From the first `start` on, whatever happens and in whatever order, the lifecycle is stopped, has a
  -- connection or has a timer set; these exclude one another. It is ready only with a connection, and
  -- then the newest; the requests that wait were made on that connection; and a timer was set with at
  -- most the greatest delay.
  pub run-start-IsSound :
      (socket : Option ℕ) (es : List Event)
      → IsSound options (run options (start options initial socket) es)
        × (engaged (run options (start options initial socket) es) ≡ true)
  run-start-IsSound socket es =
      let sound : IsSound options initial = ground arith in
      let (h, k) = start-IsSound options initial socket sound in
      run-IsSound (start options initial socket) es h k
