-- ===== src/Reminder/Lifecycle/Once.antt =====
-- No request of a caller is lost, and none is answered twice.
use agent_mesh_platform.Reminder.Lifecycle.Accounts.{
  Kept, schedule_reconnect-Kept, accounted-emit, reject_generation-Kept, mark_unavailable-Kept,
  connect-Kept, stop-Kept, request_on-Kept, request-Kept, taken-Kept,
}
use agent_mesh_platform.Reminder.Lifecycle.Promises.{
  waits, settles, answers, accounted, asks, asked, Numbered,
}
use agent_mesh_platform.Reminder.Lifecycle.Events.{
  Frame, not_json, null, no_id, reply, handle_message, handle_close, reject_and_reconnect,
  after_register, resume, reconnect_fires, rpc_times_out, Event, started, stop_called, requested,
  opened, received, socket_closed, socket_failed, reconnect_due, timed_out, resumed, step, run,
}
use agent_mesh_platform.Reminder.Lifecycle.{
  Attempt, RpcId, rpc_id_eq, Requester, registration, caller, Settlement, resolved, rejected,
  registered, connectivity, on_registered, closed, answered, uncaught, HubLifecycle,
  HubLifecycleOptions, initial, owns, emit, reject_generation, mark_unavailable, start,
}
use agent_mesh_platform.Base.RowLaws.{}
use agent_mesh_platform.Base.Map.{get}
use agent_mesh_platform.Base.{
  Bool-cases, Option-cases, string_eq, nat_eq, count, ℕ, ◌+◌, String, ◌≡◌, refl, inl, inr, true,
  false, none, some, List, [], ◌∷◌, arith,
}

module _ (options : HubLifecycleOptions) (who : ℕ) where
  same-Kept : (lc : HubLifecycle) → Numbered lc.sequence lc.pending → Kept who 0 lc lc
  same-Kept lc h = (h, omega arith)

  handle_message-Kept :
      (lc : HubLifecycle) (a : Attempt) (frame : Frame)
      → Numbered lc.sequence lc.pending
      → Kept who 0 lc (handle_message lc a frame)
  unfolding handle_message
  handle_message-Kept lc a not_json h = ground arith
  handle_message-Kept lc a null h = ground (arith, accounted-emit options who lc uncaught)
  handle_message-Kept lc a no_id h = ground arith
  handle_message-Kept lc a (reply none s) h = ground arith
  handle_message-Kept lc a (reply (some id) s) h = elim (Option-cases (get id lc.pending)) [
    | inl e ↦ ground arith
    | inr (rpc, e) ↦ ground (arith, taken-Kept options who lc id rpc s h e)
  ]

  rpc_times_out-Kept :
      (lc : HubLifecycle) (id : RpcId)
      → Numbered lc.sequence lc.pending
      → Kept who 0 lc (rpc_times_out lc id)
  unfolding rpc_times_out
  rpc_times_out-Kept lc id h = elim (Option-cases (get id lc.pending)) [
    | inl e ↦ rw (e, rpc_times_out) (same-Kept lc h)
    | inr (rpc, e) ↦ ground (arith, taken-Kept options who lc id rpc (rejected "rpc_timeout") h e)
  ]

  handle_close-Kept :
      (lc : HubLifecycle) (a : Attempt)
      → Numbered lc.sequence lc.pending
      → Kept who 0 lc (handle_close options lc a)
  unfolding handle_close
  handle_close-Kept lc a h =
      let lc' = record lc { current = none; ready = false } in
      let left = reject_generation lc' a.generation "hub_closed" in
      let k = reject_generation-Kept options who lc' a.generation "hub_closed" h in
      let k' = mark_unavailable-Kept options who lc left "hub_closed" k in
      let k'' = schedule_reconnect-Kept options who lc (mark_unavailable left "hub_closed") k' in
      elim (Bool-cases (owns lc a)) [ inl own ↦ rw own k'' | inr other ↦ rw other (same-Kept lc h) ]

  reject_and_reconnect-Kept :
      (lc : HubLifecycle) (a : Attempt) (category : String)
      → Numbered lc.sequence lc.pending
      → Kept who 0 lc (reject_and_reconnect options lc a category)
  unfolding reject_and_reconnect
  reject_and_reconnect-Kept lc a category h =
      let lc' = record lc { current = none; ready = false } in
      let left = reject_generation lc' a.generation category in
      let k = reject_generation-Kept options who lc' a.generation category h in
      let k' = mark_unavailable-Kept options who lc left category k in
      let quiet = accounted-emit options who (mark_unavailable left category) (closed a.ws 1008) in
      let k'' =
        schedule_reconnect-Kept options who lc
          (emit (mark_unavailable left category) (closed a.ws 1008)) (k'.0, omega (arith, quiet)) in
      elim (Bool-cases (owns lc a)) [ inl own ↦ rw own k'' | inr other ↦ rw other (same-Kept lc h) ]

  after_register-Kept :
      (lc : HubLifecycle) (a : Attempt) (s : Settlement)
      → Numbered lc.sequence lc.pending
      → Kept who 0 lc (after_register options lc a s)
  unfolding after_register
  after_register-Kept lc a resolved h =
      let lc' = record lc { ready = true; reconnect_attempt = 0 } in
      ground (
        arith,
        accounted-emit options who lc' (connectivity registered),
        accounted-emit options who (emit lc' (connectivity registered)) on_registered,
      )
  after_register-Kept lc a (rejected category) h =
      ground (arith, reject_and_reconnect-Kept lc a category h)

  resume_of-Kept :
      (lc : HubLifecycle) (rs : List (Requester × Settlement))
      → lc.settled ≡ rs
      → Numbered lc.sequence lc.pending
      → Kept who 0 lc (resume options lc)
  unfolding resume count
  resume_of-Kept lc [] e h = (ground arith, ground arith)
  resume_of-Kept lc ((registration a, s) ∷ rest) e h =
      rw (e, resume) (after_register-Kept (record lc { settled = rest }) a s h)
  resume_of-Kept lc ((caller n, s) ∷ rest) e h =
      rw (e, resume)
        (
          h,
          ground (arith, accounted-emit options who (record lc { settled = rest }) (answered n s)),
        )

  step-Kept :
      (lc : HubLifecycle) (e : Event)
      → Numbered lc.sequence lc.pending
      → Kept who (asks who e) lc (step options lc e)
  unfolding step start reconnect_fires
  step-Kept lc (started socket) h =
      connect-Kept options who (record lc { stopped = false }) socket h
  step-Kept lc stop_called h = stop-Kept options who lc h
  step-Kept lc (requested n method is_open sends) h =
      request-Kept options who lc n method is_open sends h
  step-Kept lc (opened a is_open sends) h =
      ground
        (arith, request_on-Kept options who lc a (registration a) "mesh.connect" is_open sends h)
  step-Kept lc (received a frame) h = handle_message-Kept lc a frame h
  step-Kept lc (socket_closed a) h = handle_close-Kept lc a h
  step-Kept lc (socket_failed a) h = same-Kept lc h
  step-Kept lc (reconnect_due socket) h =
      ground (arith, connect-Kept options who (record lc { reconnect_timer = none }) socket h)
  step-Kept lc (timed_out id) h = rpc_times_out-Kept lc id h
  step-Kept lc resumed h = resume_of-Kept lc lc.settled refl h

  run-Kept :
      (lc : HubLifecycle) (es : List Event)
      → Numbered lc.sequence lc.pending
      → accounted who (run options lc es) ≡ accounted who lc + asked who es
  unfolding run asked
  run-Kept lc [] h = omega arith
  run-Kept lc (e ∷ es) h =
      let (h', k) = step-Kept lc e h in omega (arith, k, run-Kept (step options lc e) es h')

  -- Whatever happens, each request of a caller is accounted for exactly once: it waits for the hub, or
  -- its promise is settled and not yet resumed, or it was answered. Nothing is lost when a connection
  -- goes, when a send throws, when a request times out or when the lifecycle stops.
  pub run-requests :
      (es : List Event)
      → count (waits who) (run options initial es).pending
          + (count (settles who) (run options initial es).settled
              + count (answers who) (run options initial es).outputs)
        ≡ asked who es
  unfolding count
  run-requests es = omega (arith, run-Kept initial es (tt, tt))
