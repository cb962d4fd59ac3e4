-- ===== src/Reminder/Lifecycle/Accounts.antt =====
-- Every step keeps the account of a caller's requests.
use agent_mesh_platform.Reminder.Lifecycle.Promises.{
  is_caller, settles, answers, accounted, Numbered, delete-Numbered, Numbered-later, put-Numbered,
  drop-Numbered, get-unused, drop-unused, count-put, count-drop, count-rejected,
}
use agent_mesh_platform.Reminder.Lifecycle.Events.{}
use agent_mesh_platform.Reminder.Lifecycle.{
  Attempt, RpcId, rpc_id_eq, Requester, caller, Settlement, rejected, PendingRpc, connecting,
  unavailable, Output, connectivity, on_unavailable, sent, closed, HubLifecycle,
  HubLifecycleOptions, owns, emit, settle, of_generation, reject_generation, mark_unavailable,
  schedule_reconnect, connect, stop, request_on, request,
}
use agent_mesh_platform.Base.RowLaws.{count-append, count_single}
use agent_mesh_platform.Base.Map.{get, put, drop, put-IsMap, drop-IsMap}
use agent_mesh_platform.Base.{
  if◌then◌else◌, Bool-cases, Option-cases, ◌==◌, string_eq, nat_eq, select, count, ℕ, ◌+◌, String,
  ◌≡◌, refl, inl, inr, Bool, true, false, not, ◌||◌, Option, none, some, [], ◌∷◌, map, arith,
}

-- What a step keeps that takes `n` requests of the caller.
abbrev pub Kept : ℕ → ℕ → HubLifecycle → HubLifecycle → Type 0
Kept who n lc lc' = Numbered lc'.sequence lc'.pending × (accounted who lc' ≡ accounted who lc + n)

module _ (options : HubLifecycleOptions) (who : ℕ) where
  pub schedule_reconnect-Kept :
      (lc lc' : HubLifecycle) → Kept who 0 lc lc' → Kept who 0 lc (schedule_reconnect options lc')
  unfolding schedule_reconnect
  schedule_reconnect-Kept lc lc' k = ground arith

  pub accounted-emit :
      (lc : HubLifecycle) (o : Output)
      → accounted who (emit lc o) ≡ accounted who lc + (if answers who o then 1 else 0)
  unfolding count
  accounted-emit lc o = ground (arith, count-append (answers who) lc.outputs (o ∷ []))

  accounted-settle :
      (lc : HubLifecycle) (r : Requester) (s : Settlement)
      → accounted who (settle lc r s) ≡ accounted who lc + (if is_caller who r then 1 else 0)
  unfolding count
  accounted-settle lc r s = ground (arith, count-append (settles who) lc.settled ((r, s) ∷ []))

  pub reject_generation-Kept :
      (lc : HubLifecycle) (g : ℕ) (category : String)
      → Numbered lc.sequence lc.pending
      → Kept who 0 lc (reject_generation lc g category)
  unfolding reject_generation
  reject_generation-Kept lc g category h = ground (
    arith,
    delete-Numbered g lc.sequence lc.pending h,
    count-rejected who g category lc.pending,
    count-append (settles who) lc.settled
        (map (λ e. (e.1.requester, rejected category)) (select (of_generation g) lc.pending)),
  )

  pub mark_unavailable-Kept :
      (lc lc' : HubLifecycle) (category : String)
      → Kept who 0 lc lc'
      → Kept who 0 lc (mark_unavailable lc' category)
  unfolding count
  mark_unavailable-Kept lc lc' category k = ground (
    arith,
    accounted-emit lc' (connectivity unavailable),
    accounted-emit (emit lc' (connectivity unavailable)) (on_unavailable category),
  )

  pub connect-Kept :
      (lc : HubLifecycle) (socket : Option ℕ)
      → Numbered lc.sequence lc.pending
      → Kept who 0 lc (connect options lc socket)
  unfolding connect
  connect-Kept lc none h = ground (
    arith,
    mark_unavailable-Kept lc (record lc { generation = lc.generation + 1 }) "connect_create_failed",
    schedule_reconnect-Kept lc
        (mark_unavailable (record lc { generation = lc.generation + 1 }) "connect_create_failed"),
  )
  connect-Kept lc (some ws) h =
      let g = lc.generation + 1 in
      ground (
        arith,
        accounted-emit
            (record lc {
              generation = g;
              current = some (record { generation = g; ws = ws });
              ready = false;
            })
            (connectivity connecting),
      )

  pub stop-Kept : (lc : HubLifecycle) → Numbered lc.sequence lc.pending → Kept who 0 lc (stop lc)
  unfolding stop
  stop-Kept lc h = elim (Option-cases lc.current) [
    | inl e ↦ ground arith
    | inr (a, e) ↦
        let lc' = record lc {
          stopped = true;
          reconnect_timer = none;
          current = none;
          ready = false;
        } in
        ground (
          arith,
          reject_generation-Kept lc' a.generation "stopped" h,
          accounted-emit (reject_generation lc' a.generation "stopped") (closed a.ws 1000),
        )
  ]

  -- A request that is open is entered, and taken out again where sending it throws.
  entered-Kept :
      (lc : HubLifecycle) (id : RpcId) (rpc : PendingRpc) (method : String)
      → Numbered lc.sequence lc.pending
      → id.sequence ≡ lc.sequence + 1
      → Kept who (if is_caller who rpc.requester then 1 else 0) lc (
          emit
            (record lc { sequence = lc.sequence + 1; pending = put id rpc lc.pending })
            (sent id method))
  entered-Kept lc id rpc method h e =
      let fresh = get-unused id lc.sequence lc.pending h.1 (omega arith) in
      (
        (put-IsMap id rpc lc.pending h.0, put-Numbered id rpc lc.sequence lc.pending h.1 e),
        ground (
          arith,
          count-put who id rpc lc.pending fresh,
          count-append (answers who) lc.outputs (sent id method ∷ []),
          count_single (answers who) (sent id method),
        ),
      )

  failed-Kept :
      (lc : HubLifecycle) (id : RpcId) (rpc : PendingRpc) (category : String)
      → Numbered lc.sequence lc.pending
      → id.sequence ≡ lc.sequence + 1
      → Kept who (if is_caller who rpc.requester then 1 else 0) lc (
          settle
            (record lc { sequence = lc.sequence + 1; pending = drop id (put id rpc lc.pending) })
            rpc.requester
            (rejected category))
  failed-Kept lc id rpc category h e =
      let fresh = get-unused id lc.sequence lc.pending h.1 (omega arith) in
      rw (drop-unused id rpc lc.pending fresh) (
        (h.0, Numbered-later lc.sequence lc.pending h.1),
        accounted-settle lc rpc.requester (rejected category),
      )

  pub request_on-Kept :
      (lc : HubLifecycle) (a : Attempt) (r : Requester) (method : String) (is_open sends : Bool)
      → Numbered lc.sequence lc.pending
      → Kept who (if is_caller who r then 1 else 0) lc (request_on lc a r method is_open sends)
  unfolding request_on
  request_on-Kept lc a r method is_open sends h =
      let id : RpcId = record { generation = a.generation; sequence = lc.sequence + 1 } in
      let rpc : PendingRpc = record { generation = a.generation; requester = r } in
      elim (Bool-cases (not (owns lc a) || not is_open)) [
        | inl shut ↦ rw shut (h, accounted-settle lc r (rejected "hub_unavailable"))
        | inr ready ↦ elim (Bool-cases sends) [
          | inl e ↦ rw (ready, e) (entered-Kept lc id rpc method h refl)
          | inr e ↦ rw (ready, e) (failed-Kept lc id rpc "rpc_send_failed" h refl)
        ]
      ]

  request_open :
      (lc : HubLifecycle) (a : Attempt) (n : ℕ) (method : String) (is_open sends : Bool)
      → lc.current ≡ some a
      → request lc n method is_open sends ≡ (
          if lc.ready
          then request_on lc a (caller n) method is_open sends
          else settle lc (caller n) (rejected "hub_unavailable"))
  unfolding request
  request_open lc a n method is_open sends e = ground arith

  pub request-Kept :
      (lc : HubLifecycle) (n : ℕ) (method : String) (is_open sends : Bool)
      → Numbered lc.sequence lc.pending
      → Kept who (if n == who then 1 else 0) lc (request lc n method is_open sends)
  unfolding request
  request-Kept lc n method is_open sends h = elim (Option-cases lc.current) [
    | inl e ↦ rw (e, request) (h, accounted-settle lc (caller n) (rejected "hub_unavailable"))
    | inr (a, e) ↦ rw (request_open lc a n method is_open sends e) (either lc.ready a)
  ]
    where
      either :
          (b : Bool) (a : Attempt)
          → Kept who (if n == who then 1 else 0) lc (
              if b
              then request_on lc a (caller n) method is_open sends
              else settle lc (caller n) (rejected "hub_unavailable"))
      either true a = request_on-Kept lc a (caller n) method is_open sends h
      either false a = (h, accounted-settle lc (caller n) (rejected "hub_unavailable"))

  -- A request that waits is taken out and settled.
  pub taken-Kept :
      (lc : HubLifecycle) (id : RpcId) (rpc : PendingRpc) (s : Settlement)
      → Numbered lc.sequence lc.pending
      → get id lc.pending ≡ some rpc
      → Kept who 0 lc (settle (record lc { pending = drop id lc.pending }) rpc.requester s)
  taken-Kept lc id rpc s h e = (
    (drop-IsMap id lc.pending h.0, drop-Numbered id lc.sequence lc.pending h.1),
    omega (
      arith,
      accounted-settle (record lc { pending = drop id lc.pending }) rpc.requester s,
      count-drop who id rpc lc.pending h.0 e,
    ),
  )
