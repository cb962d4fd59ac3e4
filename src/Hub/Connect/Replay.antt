-- ===== src/Hub/Connect/Replay.antt =====
-- The replay delivers what landed before the first drop, in order, and nothing after it.
use agent_mesh_platform.Hub.Connect.{
  pending_messages, replay_frame, delivered_row_event, replayed, deliver_each, deliver_pending,
}
use agent_mesh_platform.Hub.Send.Handler.{}
use agent_mesh_platform.Hub.Send.{Hub}
use agent_mesh_platform.Hub.Presence.{}
use agent_mesh_platform.Hub.Ownership.{}
use agent_mesh_platform.Store.Entitlement.{}
use agent_mesh_platform.Store.Sources.{}
use agent_mesh_platform.Store.Messages.{delivered, mail_status_eq, MessageRow, is_id, message_by_id}
use agent_mesh_platform.Store.Agents.{}
use agent_mesh_platform.Base.Order.{}
use agent_mesh_platform.Base.RowLaws.{}
use agent_mesh_platform.Base.Map.{}
use agent_mesh_platform.Base.{
  if◌then◌else◌, Bool-cases, ◌==◌, string_eq, nat_eq, first, exists, update, ℕ, String, ◌≡◌, refl,
  ◌∙◌, inl, inr, Bool, Option, none, some, List, [], ◌∷◌, ◌++◌, map, arith,
}
use mathlib.Core.List.{append-nil, append_assoc}

-- The messages before the first one that does not land.
abbrev pub landed : (String → Bool) → List MessageRow → List MessageRow
landed takes [] = []
landed takes (m ∷ ms) = if takes m.id then m ∷ landed takes ms else []

-- The table after these messages were settled.
unfoldable pub settled_all : List MessageRow → List MessageRow → List MessageRow
settled_all db [] = db
settled_all db (m ∷ ms) =
    settled_all (update (is_id m.id) (λ r. record r { status = delivered }) db) ms

deliver_each_lem :
    (takes : String → Bool) (hub : Hub) (ws : ℕ) (ms : List MessageRow)
    → deliver_each takes hub ws ms ≡ record hub {
      frames = hub.frames ++ map (λ m. (ws, replay_frame m)) (landed takes ms);
      messages = settled_all hub.messages (landed takes ms);
      events = hub.events ++ map delivered_row_event (landed takes ms);
    }
unfolding deliver_each settled_all replayed
deliver_each_lem takes hub ws [] = ground (arith, append-nil hub.frames, append-nil hub.events)
deliver_each_lem takes hub ws (m ∷ ms) = elim (Bool-cases (takes m.id)) [
  | inr stop ↦ rw stop (ground (arith, append-nil hub.frames, append-nil hub.events))
  | inl go ↦ rw go (deliver_each_lem takes (replayed hub ws m) ws ms ∙ simp append_assoc)
]

abbrev pub marked : Option MessageRow → Option MessageRow
marked none = none
marked (some r) = some (record r { status = delivered })

marked_once :
    (db : List MessageRow) (m id : String)
    → message_by_id (update (is_id m) (λ r. record r { status = delivered }) db) id
      ≡ (if m == id then marked (message_by_id db id) else message_by_id db id)
unfolding message_by_id first update
marked_once [] m id = ground arith
marked_once (r ∷ db) m id = ground (arith, marked_once db m id)

settled_all_lem :
    (db ms : List MessageRow) (id : String)
    → message_by_id (settled_all db ms) id
      ≡ (if exists (is_id id) ms then marked (message_by_id db id) else message_by_id db id)
unfolding settled_all exists
settled_all_lem db [] id = refl
settled_all_lem db (m ∷ ms) id = ground (
  arith,
  marked_once db m.id id,
  settled_all_lem (update (is_id m.id) (λ r. record r { status = delivered }) db) ms id,
)

pub deliver_pending_lem :
    (takes : String → Bool) (hub : Hub) (identity : String) (ws : ℕ) (id : String)
    → let ms = landed takes (pending_messages hub.messages identity) in
      let hub' = deliver_pending takes hub identity ws in
      (hub'.frames ≡ hub.frames ++ map (λ m. (ws, replay_frame m)) ms)
      × (hub'.events ≡ hub.events ++ map delivered_row_event ms)
      × (message_by_id hub'.messages id ≡ (
          if exists (is_id id) ms
          then marked (message_by_id hub.messages id)
          else message_by_id hub.messages id))
      × (hub'.presence ≡ hub.presence)
unfolding deliver_pending
deliver_pending_lem takes hub identity ws id =
    let ms = pending_messages hub.messages identity in
    rw (deliver_each_lem takes hub ws ms)
      (refl, refl, settled_all_lem hub.messages (landed takes ms) id, refl)
