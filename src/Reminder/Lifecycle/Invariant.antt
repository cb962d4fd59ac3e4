-- ===== src/Reminder/Lifecycle/Invariant.antt =====
-- The one attempt or the one timer of the lifecycle, whatever happens.
use agent_mesh_platform.Reminder.Lifecycle.Events.{}
use agent_mesh_platform.Reminder.Lifecycle.{
  Attempt, RpcId, rpc_id_eq, PendingRpc, HubLifecycle, HubLifecycleOptions, owns, of_generation,
  reject_generation, delay, schedule_reconnect, connect, start, stop,
}
use agent_mesh_platform.Base.Map.{put, drop}
use agent_mesh_platform.Base.{
  Option-cases, string_eq, nat_eq, delete, Every, is_some, ℕ, ◌≤◌, ◌≡◌, refl, ◌∙◌, subst, inl, inr,
  Bool, true, false, not, ◌&&◌, ◌||◌, Option, none, some, List, [], ◌∷◌, arith,
}

abbrev pub delay_of : Option ℕ → ℕ
delay_of none = 0
delay_of (some d) = d

abbrev pub generation_of : Option Attempt → ℕ → ℕ
generation_of none n = n
generation_of (some a) n = a.generation

-- The requests that wait for an answer were made on this connection.
abbrev pub Belongs : Option Attempt → List (RpcId × PendingRpc) → Type 0
Belongs none es = es ≡ []
Belongs (some a) es = Every (λ e. e.1.generation ≡ a.generation) es

-- Stopped, connected, or waiting to reconnect.
abbrev pub engaged : HubLifecycle → Bool
engaged lc = lc.stopped || (is_some lc.current || is_some lc.reconnect_timer)

-- No two of these at once, ready only where connected, and a delay within its bound.
pub record IsSound (options : HubLifecycleOptions) (lc : HubLifecycle) : Type 0 where
  pub idle : (lc.stopped && (is_some lc.current || is_some lc.reconnect_timer)) ≡ false
  pub alone : (is_some lc.current && is_some lc.reconnect_timer) ≡ false
  pub owned : (lc.ready && not (is_some lc.current)) ≡ false
  pub bounded : delay_of lc.reconnect_timer ≤ options.reconnect_max_ms
  pub newest : generation_of lc.current lc.generation ≡ lc.generation
  pub belongs : Belongs lc.current lc.pending

delete-Every :
    (generation : ℕ) (es : List (RpcId × PendingRpc))
    → Every (λ e. e.1.generation ≡ generation) es
    → delete (of_generation generation) es ≡ []
unfolding delete
delete-Every generation [] h = refl
delete-Every generation (e ∷ es) h = ground (arith, delete-Every generation es h.1)

delete-Belongs :
    (cur : Option Attempt) (c : Attempt) (generation : ℕ) (es : List (RpcId × PendingRpc))
    → cur ≡ some c
    → c.generation ≡ generation
    → Belongs cur es
    → delete (of_generation generation) es ≡ []
delete-Belongs none c generation es e g h = cc
delete-Belongs (some b) c generation es e g h =
    let k : b.generation ≡ generation = ground arith in
    delete-Every generation es (subst (λ n. Every (λ x. x.1.generation ≡ n) es) k h)

pub owner_of :
    (lc : HubLifecycle) (a : Attempt)
    → owns lc a ≡ true
    → (c : Attempt) × (lc.current ≡ some c) × (c.generation ≡ a.generation)
unfolding owns
owner_of lc a h = elim (Option-cases lc.current) [
  | inl e ↦ absurd (ground arith)
  | inr (c, e) ↦ (c, e, ground arith)
]

put-Every :
    (id : RpcId) (rpc : PendingRpc) (g : ℕ) (es : List (RpcId × PendingRpc))
    → rpc.generation ≡ g
    → Every (λ e. e.1.generation ≡ g) es
    → Every (λ e. e.1.generation ≡ g) (put id rpc es)
unfolding put
put-Every id rpc g [] e h = (e, tt)
put-Every id rpc g (x ∷ es) e h = ground (arith, put-Every id rpc g es e h.1)

drop-Every :
    (g : ℕ) (id : RpcId) (es : List (RpcId × PendingRpc))
    → Every (λ e. e.1.generation ≡ g) es
    → Every (λ e. e.1.generation ≡ g) (drop id es)
unfolding drop
drop-Every g id [] h = tt
drop-Every g id (e ∷ es) h = ground (arith, drop-Every g id es h.1)

pub put-Belongs :
    (cur : Option Attempt) (c : Attempt) (id : RpcId) (rpc : PendingRpc)
    (es : List (RpcId × PendingRpc))
    → cur ≡ some c
    → rpc.generation ≡ c.generation
    → Belongs cur es
    → Belongs cur (put id rpc es)
put-Belongs none c id rpc es e g h = cc
put-Belongs (some b) c id rpc es e g h = put-Every id rpc b.generation es (ground arith) h

pub drop-Belongs :
    (cur : Option Attempt) (id : RpcId) (es : List (RpcId × PendingRpc))
    → Belongs cur es
    → Belongs cur (drop id es)
unfolding drop
drop-Belongs none id es h = rw (h, drop)
drop-Belongs (some b) id es h = drop-Every b.generation id es h

module _ (options : HubLifecycleOptions) where
  delay_bounded : (attempt : ℕ) → delay options attempt ≤ options.reconnect_max_ms
  unfolding delay
  delay_bounded attempt = omega arith

  pub schedule_reconnect-IsSound :
      (lc : HubLifecycle)
      → lc.current ≡ none
      → IsSound options lc
      → IsSound options (schedule_reconnect options lc)
        × (engaged (schedule_reconnect options lc) ≡ true)
  unfolding schedule_reconnect
  schedule_reconnect-IsSound lc e h = ground (arith, delay_bounded lc.reconnect_attempt)

  pub connect-IsSound :
      (lc : HubLifecycle) (socket : Option ℕ)
      → IsSound options lc
      → IsSound options (connect options lc socket) × (engaged (connect options lc socket) ≡ true)
  unfolding connect schedule_reconnect
  connect-IsSound lc none h = ground (arith, delay_bounded lc.reconnect_attempt)
  connect-IsSound lc (some ws) h = ground arith

  pub start-IsSound :
      (lc : HubLifecycle) (socket : Option ℕ)
      → IsSound options lc
      → IsSound options (start options lc socket) × (engaged (start options lc socket) ≡ true)
  unfolding start
  start-IsSound lc socket h = connect-IsSound (record lc { stopped = false }) socket (ground arith)

  -- The connection is given up, what waited on it is rejected, and a timer is set.
  pub leave-IsSound :
      (lc lc' : HubLifecycle) (a : Attempt)
      → owns lc a ≡ true
      → IsSound options lc
      → lc'.current ≡ none
      → lc'.ready ≡ false
      → lc'.stopped ≡ lc.stopped
      → lc'.reconnect_timer ≡ lc.reconnect_timer
      → lc'.generation ≡ lc.generation
      → lc'.pending ≡ delete (of_generation a.generation) lc.pending
      → IsSound options (schedule_reconnect options lc')
        × (engaged (schedule_reconnect options lc') ≡ engaged lc)
  leave-IsSound lc lc' a own h ec er es et eg ep =
      let (c, e, g) = owner_of lc a own in
      let none_left : lc'.pending ≡ [] =
        ep ∙ delete-Belongs lc.current c a.generation lc.pending e g h.belongs in
      let s : IsSound options lc' = ground arith in
      ground (arith, schedule_reconnect-IsSound lc' ec s)

  pub stop-IsSound :
      (lc : HubLifecycle)
      → IsSound options lc
      → IsSound options (stop lc) × (engaged (stop lc) ≡ true)
  unfolding stop reject_generation
  stop-IsSound lc h = elim (Option-cases lc.current) [
    | inl e ↦ ground arith
    | inr (c, e) ↦
        ground (arith, delete-Belongs lc.current c c.generation lc.pending e refl h.belongs)
  ]
