-- ===== src/Hub/Heartbeat/Silent.antt =====
-- A sweep drops the sockets that did not answer the one before, and pings the others.
use agent_mesh_platform.Hub.Heartbeat.{HeartbeatState, is_awaiting, sweep_one, sweep_each, sweep}
use agent_mesh_platform.Hub.Connect.{touch_last_seen}
use agent_mesh_platform.Hub.Presence.{Presence, drop_connection}
use agent_mesh_platform.Store.Agents.{Agent}
use agent_mesh_platform.Base.RowLaws.{exists-append, exists-delete_self}
use agent_mesh_platform.Base.{
  if◌then◌else◌, Bool-cases, ◌==◌, string_eq, nat_eq, select, exists, delete, insert_absent,
  IsKeyed, ℕ, String, ◌≡◌, refl, ap, ◌∙◌, subst, inl, inr, Bool, true, false, not, ◌||◌, List, [],
  ◌∷◌, map, arith,
}

abbrev pub is_late : List ℕ → String × ℕ → Bool
is_late awaiting e = is_awaiting e.1 awaiting

abbrev pub is_timely : List ℕ → String × ℕ → Bool
is_timely awaiting e = not (is_late awaiting e)

-- No socket is online twice.
abbrev pub HasDistinctSockets : List (String × ℕ) → Type 0
HasDistinctSockets = IsKeyed (λ e f. f.1 == e.1)

awaiting_after : Bool → ℕ → List ℕ → List ℕ
awaiting_after late ws awaiting =
    if late then delete (λ s. s == ws) awaiting else insert_absent (λ s. s == ws) ws awaiting

is_awaiting-delete :
    (s ws : ℕ) (awaiting : List ℕ)
    → (s == ws) ≡ false
    → is_awaiting s (delete (λ t. t == ws) awaiting) ≡ is_awaiting s awaiting
unfolding exists delete
is_awaiting-delete s ws [] n = refl
is_awaiting-delete s ws (t ∷ ts) n = ground (arith, is_awaiting-delete s ws ts n)

is_awaiting-after :
    (late : Bool) (s ws : ℕ) (awaiting : List ℕ)
    → (s == ws) ≡ false
    → is_awaiting s (awaiting_after late ws awaiting) ≡ is_awaiting s awaiting
unfolding awaiting_after insert_absent exists
is_awaiting-after true s ws awaiting n = is_awaiting-delete s ws awaiting n
is_awaiting-after false s ws awaiting n =
    ground (arith, exists-append (λ t. t == s) awaiting (ws ∷ []))

others_same :
    (late : Bool) (ws : ℕ) (awaiting : List ℕ) (online : List (String × ℕ))
    → exists (λ f. f.1 == ws) online ≡ false
    → (select (is_late (awaiting_after late ws awaiting)) online ≡ select (is_late awaiting) online)
      × (select (is_timely (awaiting_after late ws awaiting)) online
          ≡ select (is_timely awaiting) online)
unfolding select exists
others_same late ws awaiting [] n = (refl, refl)
others_same late ws awaiting (e ∷ online) n =
    ground (arith, others_same late ws awaiting online, is_awaiting-after late e.1 ws awaiting)

sweep_one_awaiting :
    (h : HeartbeatState) (identity : String) (ws now : ℕ)
    → (sweep_one h identity ws now).awaiting
      ≡ awaiting_after (is_awaiting ws h.awaiting) ws h.awaiting
unfolding sweep_one awaiting_after
sweep_one_awaiting h identity ws now = ground arith

sweep_each_lem :
    (h : HeartbeatState) (online : List (String × ℕ)) (now : ℕ)
    → HasDistinctSockets online
    → ((sweep_each h online now).1.dropped ≡ map (λ e. e.0) (select (is_late h.awaiting) online))
      × ((sweep_each h online now).1.pinged ≡ map (λ e. e.0) (select (is_timely h.awaiting) online))
unfolding sweep_each select
sweep_each_lem h [] now d = (refl, refl)
sweep_each_lem h ((identity, ws) ∷ online) now d =
    let next = sweep_one h identity ws now in
    let (dropped, pinged) = sweep_each_lem next online now d.1 in
    let e = sweep_one_awaiting h identity ws now in
    let (late, timely) = others_same (is_awaiting ws h.awaiting) ws h.awaiting online d.0 in
    let names = λ (es : List (String × ℕ)). map (λ f. f.0) es in
    let dropped' : (sweep_each next online now).1.dropped
        ≡ names (select (is_late h.awaiting) online) =
      dropped ∙ ap (λ a. names (select (is_late a) online)) e ∙ ap names late in
    let pinged' : (sweep_each next online now).1.pinged
        ≡ names (select (is_timely h.awaiting) online) =
      pinged ∙ ap (λ a. names (select (is_timely a) online)) e ∙ ap names timely in
    elim (Bool-cases (is_awaiting ws h.awaiting)) [
      | inl w ↦ rw w (ap (λ ns. identity ∷ ns) dropped', pinged')
      | inr w ↦ rw w (dropped', ap (λ ns. identity ∷ ns) pinged')
    ]

-- Each connection of a list dropped, in order, and stamped.
pub drop_all : Presence → List (String × ℕ) → Presence
drop_all p [] = p
drop_all p (e ∷ late) = drop_all (drop_connection p e.1 e.0) late

pub touch_all : List Agent → List (String × ℕ) → ℕ → List Agent
touch_all agents [] now = agents
touch_all agents (e ∷ late) now = touch_all (touch_last_seen agents e.0 now) late now

one_state :
    (h : HeartbeatState) (identity : String) (ws now : ℕ) (online : List (String × ℕ))
    → (drop_all (sweep_one h identity ws now).presence (select (is_late h.awaiting) online)
        ≡ drop_all h.presence (select (is_late h.awaiting) ((identity, ws) ∷ online)))
      × (touch_all (sweep_one h identity ws now).agents (select (is_late h.awaiting) online) now
          ≡ touch_all h.agents (select (is_late h.awaiting) ((identity, ws) ∷ online)) now)
unfolding sweep_one drop_all touch_all select
one_state h identity ws now online = elim (Bool-cases (is_awaiting ws h.awaiting)) [
  | inl late ↦ rw late (refl, refl)
  | inr timely ↦ rw timely (refl, refl)
]

sweep_each-state :
    (h : HeartbeatState) (online : List (String × ℕ)) (now : ℕ)
    → HasDistinctSockets online
    → ((sweep_each h online now).0.presence
        ≡ drop_all h.presence (select (is_late h.awaiting) online))
      × ((sweep_each h online now).0.agents
          ≡ touch_all h.agents (select (is_late h.awaiting) online) now)
unfolding sweep_each select drop_all touch_all
sweep_each-state h [] now d = (refl, refl)
sweep_each-state h ((identity, ws) ∷ online) now d =
    let next = sweep_one h identity ws now in
    let (p, a) = sweep_each-state next online now d.1 in
    let e = sweep_one_awaiting h identity ws now in
    let (late, timely) = others_same (is_awaiting ws h.awaiting) ws h.awaiting online d.0 in
    let same : select (is_late next.awaiting) online ≡ select (is_late h.awaiting) online =
      ap (λ w. select (is_late w) online) e ∙ late in
    let (p', a') = one_state h identity ws now online in
    (
      p ∙ ap (drop_all next.presence) same ∙ p',
      a ∙ ap (λ es. touch_all next.agents es now) same ∙ a',
    )

is_awaiting_self :
    (late : Bool) (ws : ℕ) (awaiting : List ℕ)
    → is_awaiting ws awaiting ≡ late
    → is_awaiting ws (awaiting_after late ws awaiting) ≡ not late
unfolding awaiting_after insert_absent
is_awaiting_self true ws awaiting w = exists-delete_self (λ t. t == ws) awaiting
is_awaiting_self false ws awaiting w =
    ground (arith, exists-append (λ t. t == ws) awaiting (ws ∷ []))

-- A socket that is not online keeps its mark; one that is gets the other.
sweep_each_awaiting :
    (h : HeartbeatState) (online : List (String × ℕ)) (now s : ℕ)
    → HasDistinctSockets online
    → is_awaiting s (sweep_each h online now).0.awaiting ≡ (
        if exists (λ e. e.1 == s) online
        then not (is_awaiting s h.awaiting)
        else is_awaiting s h.awaiting)
unfolding sweep_each exists
sweep_each_awaiting h [] now s d = refl
sweep_each_awaiting h ((identity, ws) ∷ online) now s d =
    let next = sweep_one h identity ws now in
    let rest = sweep_each_awaiting next online now s d.1 in
    let e = ap (is_awaiting s) (sweep_one_awaiting h identity ws now) in
    elim (Bool-cases (ws == s)) [
      | inl same ↦
          let self = is_awaiting_self (is_awaiting ws h.awaiting) ws h.awaiting refl in
          let own = sweep_each_awaiting next online now ws d.1 in
          let marked = ap (is_awaiting ws) (sweep_one_awaiting h identity ws now) in
          let equal : ws ≡ s = ground arith in
          subst
            (λ u. is_awaiting u (sweep_each next online now).0.awaiting ≡ (
              if ws == u || exists (λ r. r.1 == u) online
              then not (is_awaiting u h.awaiting)
              else is_awaiting u h.awaiting))
            equal (ground (arith, self, own, marked, d.0))
      | inr other ↦
          ground (arith, rest, e, is_awaiting-after (is_awaiting ws h.awaiting) s ws h.awaiting)
    ]

-- Where no socket is online under two identities, a sweep reports as dropped exactly the identities
-- whose sockets have not answered the ping of the sweep before, and as pinged exactly the others, in
-- the order of the map. It drops the connections of the first, each with its identity stamped, and of
-- nobody else. After it the pinged sockets owe an answer, the dropped ones none, and every other socket
-- what it owed.
pub sweep_lem :
    (h : HeartbeatState) (now s : ℕ)
    → HasDistinctSockets h.presence.online_agents
    → let late = select (is_late h.awaiting) h.presence.online_agents in
      ((sweep h now).1.dropped ≡ map (λ e. e.0) late)
      × ((sweep h now).1.pinged
          ≡ map (λ e. e.0) (select (is_timely h.awaiting) h.presence.online_agents))
      × ((sweep h now).0.presence ≡ drop_all h.presence late)
      × ((sweep h now).0.agents ≡ touch_all h.agents late now)
      × (is_awaiting s (sweep h now).0.awaiting ≡ (
          if exists (λ e. e.1 == s) h.presence.online_agents
          then not (is_awaiting s h.awaiting)
          else is_awaiting s h.awaiting))
unfolding sweep
sweep_lem h now s d =
    let (dropped, pinged) = sweep_each_lem h h.presence.online_agents now d in
    let (presence, agents) = sweep_each-state h h.presence.online_agents now d in
    (dropped, pinged, presence, agents, sweep_each_awaiting h h.presence.online_agents now s d)
