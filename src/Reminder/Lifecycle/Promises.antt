-- ===== src/Reminder/Lifecycle/Promises.antt =====
-- Every request of a caller is answered once.
use agent_mesh_platform.Reminder.Lifecycle.Events.{
  Event, started, stop_called, requested, opened, received, socket_closed, socket_failed,
  reconnect_due, timed_out, resumed,
}
use agent_mesh_platform.Reminder.Lifecycle.{
  RpcId, rpc_id_eq, Requester, registration, caller, Settlement, rejected, PendingRpc, Output,
  connectivity, on_unavailable, on_registered, sent, closed, answered, uncaught, HubLifecycle,
  of_generation,
}
use agent_mesh_platform.Base.RowLaws.{}
use agent_mesh_platform.Base.Map.{get, put, drop, IsMap}
use agent_mesh_platform.Base.{
  if◌then◌else◌, ◌==◌, string_eq, nat_eq, select, delete, count, Every, ℕ, ◌+◌, ◌≤◌, ◌<◌, String,
  ◌≡◌, refl, Bool, false, none, some, List, [], ◌∷◌, map, arith,
}

abbrev pub is_caller : ℕ → Requester → Bool
is_caller who (registration a) = false
is_caller who (caller n) = n == who

abbrev pub waits : ℕ → RpcId × PendingRpc → Bool
waits who e = is_caller who e.1.requester

abbrev pub settles : ℕ → Requester × Settlement → Bool
settles who e = is_caller who e.0

abbrev pub answers : ℕ → Output → Bool
answers who (connectivity c) = false
answers who (on_unavailable category) = false
answers who on_registered = false
answers who (sent id method) = false
answers who (closed ws code) = false
answers who (answered n s) = n == who
answers who uncaught = false

-- The requests of a caller that wait on the hub, are settled and not yet resumed, or are answered.
abbrev pub accounted : ℕ → HubLifecycle → ℕ
accounted who lc =
    count (waits who) lc.pending + (count (settles who) lc.settled + count (answers who) lc.outputs)

abbrev pub asks : ℕ → Event → ℕ
asks who (started socket) = 0
asks who stop_called = 0
asks who (requested n method is_open sends) = if n == who then 1 else 0
asks who (opened a is_open sends) = 0
asks who (received a frame) = 0
asks who (socket_closed a) = 0
asks who (socket_failed a) = 0
asks who (reconnect_due socket) = 0
asks who (timed_out id) = 0
asks who resumed = 0

unfoldable pub asked : ℕ → List Event → ℕ
asked who [] = 0
asked who (e ∷ es) = asks who e + asked who es

-- The requests that wait have numbers that were given out, no two the same.
abbrev pub Numbered : ℕ → List (RpcId × PendingRpc) → Type 0
Numbered sequence es = IsMap es × Every (λ e. e.0.sequence ≤ sequence) es

get-delete-none :
    (g : ℕ) (id : RpcId) (es : List (RpcId × PendingRpc))
    → get id es ≡ none
    → get id (delete (of_generation g) es) ≡ none
unfolding get delete
get-delete-none g id [] h = refl
get-delete-none g id (e ∷ es) h = ground (arith, get-delete-none g id es)

pub delete-Numbered :
    (g n : ℕ) (es : List (RpcId × PendingRpc))
    → Numbered n es
    → Numbered n (delete (of_generation g) es)
unfolding delete
delete-Numbered g n [] h = (tt, tt)
delete-Numbered g n (e ∷ es) h =
    ground (arith, delete-Numbered g n es (h.0.1, h.1.1), get-delete-none g e.0 es)

pub Numbered-later :
    (n : ℕ) (es : List (RpcId × PendingRpc))
    → Every (λ e. e.0.sequence ≤ n) es
    → Every (λ e. e.0.sequence ≤ n + 1) es
Numbered-later n [] h = tt
Numbered-later n (x ∷ es) h = (omega arith, Numbered-later n es h.1)

pub put-Numbered :
    (id : RpcId) (rpc : PendingRpc) (n : ℕ) (es : List (RpcId × PendingRpc))
    → Every (λ e. e.0.sequence ≤ n) es
    → id.sequence ≡ n + 1
    → Every (λ e. e.0.sequence ≤ n + 1) (put id rpc es)
unfolding put
put-Numbered id rpc n [] h e = (omega arith, tt)
put-Numbered id rpc n (x ∷ es) h e =
    ground (arith, put-Numbered id rpc n es h.1 e, Numbered-later n es h.1)

pub drop-Numbered :
    (id : RpcId) (n : ℕ) (es : List (RpcId × PendingRpc))
    → Every (λ e. e.0.sequence ≤ n) es
    → Every (λ e. e.0.sequence ≤ n) (drop id es)
unfolding drop
drop-Numbered id n [] h = tt
drop-Numbered id n (x ∷ es) h = ground (arith, drop-Numbered id n es h.1)

pub get-unused :
    (id : RpcId) (n : ℕ) (es : List (RpcId × PendingRpc))
    → Every (λ e. e.0.sequence ≤ n) es
    → n < id.sequence
    → get id es ≡ none
unfolding get
get-unused id n [] h k = refl
get-unused id n (e ∷ es) h k = ground (arith, get-unused id n es h.1 k)

pub drop-unused :
    (id : RpcId) (rpc : PendingRpc) (es : List (RpcId × PendingRpc))
    → get id es ≡ none
    → drop id (put id rpc es) ≡ es
unfolding drop put get
drop-unused id rpc [] h = ground arith
drop-unused id rpc (e ∷ es) h = ground (arith, drop-unused id rpc es)

drop-absent : (id : RpcId) (es : List (RpcId × PendingRpc)) → get id es ≡ none → drop id es ≡ es
unfolding drop get
drop-absent id [] h = refl
drop-absent id (e ∷ es) h = ground (arith, drop-absent id es)

module _ (who : ℕ) where
  pub count-put :
      (id : RpcId) (rpc : PendingRpc) (es : List (RpcId × PendingRpc))
      → get id es ≡ none
      → count (waits who) (put id rpc es)
        ≡ count (waits who) es + (if is_caller who rpc.requester then 1 else 0)
  unfolding count put get
  count-put id rpc [] h = ground arith
  count-put id rpc (e ∷ es) h = ground (arith, count-put id rpc es)

  pub count-drop :
      (id : RpcId) (rpc : PendingRpc) (es : List (RpcId × PendingRpc))
      → IsMap es
      → get id es ≡ some rpc
      → count (waits who) (drop id es) + (if is_caller who rpc.requester then 1 else 0)
        ≡ count (waits who) es
  unfolding count drop get
  count-drop id rpc [] m h = cc
  count-drop id rpc (e ∷ es) m h = ground (arith, count-drop id rpc es m.1, drop-absent id es)

  pub count-rejected :
      (g : ℕ) (category : String) (es : List (RpcId × PendingRpc))
      → count (waits who) (delete (of_generation g) es)
          + count
              (settles who)
              (map (λ e. (e.1.requester, rejected category)) (select (of_generation g) es))
        ≡ count (waits who) es
  unfolding count delete select
  count-rejected g category [] = refl
  count-rejected g category (e ∷ es) = ground (arith, count-rejected g category es)
