-- ===== src/Reminder/Lifecycle/Requests.antt =====
-- Requests and their answers leave the connection of the lifecycle as it is.
use agent_mesh_platform.Reminder.Lifecycle.Invariant.{
  Belongs, engaged, IsSound, owner_of, put-Belongs, drop-Belongs,
}
use agent_mesh_platform.Reminder.Lifecycle.Events.{
  Frame, not_json, null, no_id, reply, handle_message, rpc_times_out,
}
use agent_mesh_platform.Reminder.Lifecycle.{
  Attempt, RpcId, rpc_id_eq, Requester, caller, Settlement, rejected, PendingRpc, HubLifecycle,
  HubLifecycleOptions, owns, settle, request_on, request,
}
use agent_mesh_platform.Base.Map.{get, put, drop}
use agent_mesh_platform.Base.{
  Bool-cases, Option-cases, string_eq, nat_eq, ℕ, ◌+◌, String, ◌≡◌, refl, sym, inl, inr, Bool, none,
  some, arith,
}

module _ (options : HubLifecycleOptions) where
  -- What only moves requests keeps the rest.
  waiting-IsSound :
      (lc lc' : HubLifecycle)
      → IsSound options lc
      → lc'.current ≡ lc.current
      → lc'.ready ≡ lc.ready
      → lc'.stopped ≡ lc.stopped
      → lc'.reconnect_timer ≡ lc.reconnect_timer
      → lc'.generation ≡ lc.generation
      → Belongs lc.current lc'.pending
      → IsSound options lc' × (engaged lc' ≡ engaged lc)
  waiting-IsSound lc lc' h ec er es et eg b = ground arith

  pub request_on-IsSound :
      (lc : HubLifecycle) (a : Attempt) (r : Requester) (method : String) (is_open sends : Bool)
      → IsSound options lc
      → IsSound options (request_on lc a r method is_open sends)
        × (engaged (request_on lc a r method is_open sends) ≡ engaged lc)
  unfolding request_on
  request_on-IsSound lc a r method is_open sends h = elim (Bool-cases (owns lc a)) [
    | inr other ↦ ground arith
    | inl own ↦
        let (c, e, g) = owner_of lc a own in
        let id : RpcId = record { generation = a.generation; sequence = lc.sequence + 1 } in
        let rpc : PendingRpc = record { generation = a.generation; requester = r } in
        let b = put-Belongs lc.current c id rpc lc.pending e (sym g) h.belongs in
        let lc' = request_on lc a r method is_open sends in
        waiting-IsSound lc lc' h (ground arith) (ground arith) (ground arith) (ground arith)
          (ground arith) (ground (arith, drop-Belongs lc.current id (put id rpc lc.pending) b))
  ]

  pub request-IsSound :
      (lc : HubLifecycle) (who : ℕ) (method : String) (is_open sends : Bool)
      → IsSound options lc
      → IsSound options (request lc who method is_open sends)
        × (engaged (request lc who method is_open sends) ≡ engaged lc)
  unfolding request
  request-IsSound lc who method is_open sends h = elim (Option-cases lc.current) [
    | inl e ↦ ground arith
    | inr (a, e) ↦ ground (arith, request_on-IsSound lc a (caller who) method is_open sends h)
  ]

  answered-IsSound :
      (lc : HubLifecycle) (id : RpcId) (r : Requester) (s : Settlement)
      → IsSound options lc
      → let lc' = settle (record lc { pending = drop id lc.pending }) r s in
        IsSound options lc' × (engaged lc' ≡ engaged lc)
  answered-IsSound lc id r s h =
      waiting-IsSound lc _ h refl refl refl refl refl
        (drop-Belongs lc.current id lc.pending h.belongs)

  pub handle_message-IsSound :
      (lc : HubLifecycle) (a : Attempt) (frame : Frame)
      → IsSound options lc
      → IsSound options (handle_message lc a frame)
        × (engaged (handle_message lc a frame) ≡ engaged lc)
  unfolding handle_message
  handle_message-IsSound lc a not_json h = ground arith
  handle_message-IsSound lc a null h = ground arith
  handle_message-IsSound lc a no_id h = ground arith
  handle_message-IsSound lc a (reply none s) h = ground arith
  handle_message-IsSound lc a (reply (some id) s) h = elim (Option-cases (get id lc.pending)) [
    | inl e ↦ ground arith
    | inr (rpc, e) ↦ ground (arith, answered-IsSound lc id rpc.requester s h)
  ]

  pub rpc_times_out-IsSound :
      (lc : HubLifecycle) (id : RpcId)
      → IsSound options lc
      → IsSound options (rpc_times_out lc id) × (engaged (rpc_times_out lc id) ≡ engaged lc)
  unfolding rpc_times_out
  rpc_times_out-IsSound lc id h = elim (Option-cases (get id lc.pending)) [
    | inl e ↦ ground arith
    | inr (rpc, e) ↦ ground (arith, answered-IsSound lc id rpc.requester (rejected "rpc_timeout") h)
  ]
