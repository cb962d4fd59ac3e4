-- ===== src/Store/Groups/Membership.antt =====
-- One group for each identity: `groupOf`, `moveTo` and `membersOf` of packages/store/src/groups.ts agree.
use agent_mesh_platform.Store.Groups.{
  default_group, Member, Tables, is_member, group_of, placed_in, unplaced, members_of,
  upsert_member, move_to,
}
use agent_mesh_platform.Store.Agents.{Agent, is_identity, same_identity, default_tenant}
use agent_mesh_platform.Base.RowLaws.{first_absent, count-append}
use agent_mesh_platform.Base.Order.{count-order_by}
use agent_mesh_platform.Base.{
  if◌then◌else◌, ◌==◌, string_eq, nat_eq, select, first, exists, update, count, IsKeyed, get_or,
  is_some, ℕ, String, ◌≡◌, refl, ap, subst, Bool, false, not, ◌&&◌, ◌||◌, Option, none, some, List,
  [], ◌∷◌, ◌++◌, map, arith,
}

-- `PRIMARY KEY (tenant, identity)`.
abbrev pub same_member : Member → Member → Bool
same_member a = is_member a.tenant a.identity

abbrev group_in : String → String → List Member → String
group_in t identity ms = elim (first (is_member t identity) ms) [
  | none ↦ default_group
  | some row ↦ row.group_id
]

abbrev placed_by : Member → Member → Member
placed_by m r = record r { group_id = m.group_id; moved_at = m.moved_at; moved_by = m.moved_by }

group_in-update :
    (t identity : String) (m : Member) (ms : List Member)
    → group_in t identity (update (is_member m.tenant m.identity) (placed_by m) ms) ≡ (
        if is_member t identity m && exists (is_member m.tenant m.identity) ms
        then m.group_id
        else group_in t identity ms)
unfolding first exists update
group_in-update t identity m [] = ground arith
group_in-update t identity m (x ∷ ms) = ground (arith, group_in-update t identity m ms)

group_in-append :
    (t identity : String) (m : Member) (ms : List Member)
    → exists (is_member m.tenant m.identity) ms ≡ false
    → group_in t identity (ms ++ m ∷ [])
      ≡ (if is_member t identity m then m.group_id else group_in t identity ms)
unfolding first exists
group_in-append t identity m [] h = ground arith
group_in-append t identity m (x ∷ ms) h = ground (arith, group_in-append t identity m ms)

group_in-upsert :
    (t identity : String) (m : Member) (ms : List Member)
    → group_in t identity (upsert_member m ms)
      ≡ (if is_member t identity m then m.group_id else group_in t identity ms)
unfolding upsert_member
group_in-upsert t identity m ms =
    ground (arith, group_in-update t identity m ms, group_in-append t identity m ms)

-- Moving an identity decides its group in that tenant at once, and nobody else's group anywhere.
pub group_of-move_to :
    (db : Tables) (tenant : Option String) (identity group_id moved_by : String) (now : ℕ)
    (other t : String)
    → group_of (move_to db tenant identity group_id moved_by now) other t ≡ (
        if get_or tenant default_tenant == t && identity == other
        then group_id
        else group_of db other t)
unfolding group_of move_to
group_of-move_to db tenant identity group_id moved_by now other t =
    group_in-upsert t other
      (record {
        tenant = get_or tenant default_tenant;
        identity = identity;
        group_id = group_id;
        moved_at = now;
        moved_by = moved_by;
      })
      db.members

-- How often a name stands in a list.
abbrev pub times : String → List String → ℕ
times s xs = count (λ x. x == s) xs

-- What a list of names taken from rows counts.
times-map {ℓ} :
    {A : Type ℓ} (f : A → String) (s : String) (xs : List A)
    → times s (map f xs) ≡ count (λ a. f a == s) xs
unfolding count
times-map f s [] = refl
times-map f s (x ∷ xs) = ground (arith, times-map f s xs)

count-select {ℓ} :
    {A : Type ℓ} (p q : A → Bool) (xs : List A) → count p (select q xs) ≡ count (λ a. q a && p a) xs
unfolding count select
count-select p q [] = refl
count-select p q (x ∷ xs) = ground (arith, count-select p q xs)

count_unplaced :
    (t group_id s : String) (ms : List Member)
    → exists (is_member t s) ms ≡ false
    → count (λ m. (m.tenant == t && m.group_id == group_id) && m.identity == s) ms ≡ 0
unfolding count exists
count_unplaced t group_id s [] h = refl
count_unplaced t group_id s (x ∷ ms) h = ground (arith, count_unplaced t group_id s ms)

count_placed :
    (t group_id s : String) (ms : List Member)
    → IsKeyed same_member ms
    → count (λ m. (m.tenant == t && m.group_id == group_id) && m.identity == s) ms
      ≡ (if exists (is_member t s) ms && group_in t s ms == group_id then 1 else 0)
unfolding count exists first
count_placed t group_id s [] k = refl
count_placed t group_id s (x ∷ ms) k =
    ground (arith, count_placed t group_id s ms k.1, alone, count_unplaced t group_id s ms)
  where
    alone : x.tenant ≡ t → x.identity ≡ s → exists (is_member t s) ms ≡ false
    alone e f =
        subst (λ u. exists (is_member u s) ms ≡ false) e
          (subst (λ v. exists (is_member x.tenant v) ms ≡ false) f k.0)

abbrev pub is_live : String → String → Agent → Bool
is_live t s a = a.tenant == t && not (is_some a.deleted_at) && a.identity == s

abbrev pub unplaced_in : List Member → String → Agent → Bool
unplaced_in ms t a =
    a.tenant == t && not (is_some a.deleted_at) && not (exists (is_member t a.identity) ms)

count_gone :
    (ms : List Member) (t s : String) (agents : List Agent)
    → exists (is_identity s) agents ≡ false
    → count (λ a. unplaced_in ms t a && a.identity == s) agents ≡ 0
unfolding count exists
count_gone ms t s [] h = refl
count_gone ms t s (x ∷ agents) h = ground (arith, count_gone ms t s agents)

exists_live_gone :
    (t s : String) (agents : List Agent)
    → exists (is_identity s) agents ≡ false
    → exists (is_live t s) agents ≡ false
unfolding exists
exists_live_gone t s [] h = refl
exists_live_gone t s (x ∷ agents) h = ground (arith, exists_live_gone t s agents)

count_live :
    (ms : List Member) (t s : String) (agents : List Agent)
    → IsKeyed same_identity agents
    → count (λ a. unplaced_in ms t a && a.identity == s) agents
      ≡ (if exists (is_live t s) agents && not (exists (is_member t s) ms) then 1 else 0)
unfolding count exists
count_live ms t s [] k = refl
count_live ms t s (x ∷ agents) k = ground (
  arith,
  count_live ms t s agents k.1,
  alone,
  count_gone ms t s agents,
  exists_live_gone t s agents,
  here,
)
  where
    alone : x.identity ≡ s → exists (is_identity s) agents ≡ false
    alone e = subst (λ u. exists (is_identity u) agents ≡ false) e k.0

    here : x.identity ≡ s → exists (is_member t x.identity) ms ≡ exists (is_member t s) ms
    here e = ap (λ u. exists (is_member t u) ms) e

times_placed :
    (db : Tables) (group_id t s : String)
    → IsKeyed same_member db.members
    → times s (placed_in db group_id t)
      ≡ (if exists (is_member t s) db.members && group_in t s db.members == group_id then 1 else 0)
unfolding placed_in
times_placed db group_id t s k =
    rw (times-map, count-order_by, count-select) (count_placed t group_id s db.members k)

times-unplaced :
    (db : Tables) (agents : List Agent) (t s : String)
    → IsKeyed same_identity agents
    → times s (unplaced db agents t)
      ≡ (if exists (is_live t s) agents && not (exists (is_member t s) db.members) then 1 else 0)
unfolding unplaced
times-unplaced db agents t s k = rw (times-map, count-select) (count_live db.members t s agents k)

group_in_absent :
    (t s : String) (ms : List Member)
    → exists (is_member t s) ms ≡ false
    → group_in t s ms ≡ default_group
group_in_absent t s ms h = rw (first_absent (is_member t s) ms h, group_in)

-- `membersOf` and `groupOf` give one answer: an identity stands once in the members of a group, if it
-- has a row of the tenant, be it live, deleted or not registered, or is a live agent of the tenant, and
-- `groupOf` is that group; and it stands there not at all otherwise. Identities are the key of `agents`,
-- and tenant and identity together the key of the members.
pub members_of-group_of :
    (js_le : String → String → Bool) (db : Tables) (agents : List Agent) (group_id t s : String)
    → IsKeyed same_member db.members
    → IsKeyed same_identity agents
    → times s (members_of js_le db agents group_id t) ≡ (
        if (exists (is_member t s) db.members || exists (is_live t s) agents)
          && group_of db s t == group_id
        then 1
        else 0)
unfolding members_of group_of
members_of-group_of js_le db agents group_id t s km ka = ground (
  arith,
  times_placed db group_id t s km,
  times-unplaced db agents t s ka,
  count-order_by js_le (λ x. x == s) (placed_in db group_id t ++ unplaced db agents t),
  count-append (λ x. x == s) (placed_in db group_id t) (unplaced db agents t),
  group_in_absent t s db.members,
)
