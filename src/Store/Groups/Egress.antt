-- ===== src/Store/Groups/Egress.antt =====
-- Deny by default and direction: `maySend` of packages/store/src/groups.ts against the rules.
use agent_mesh_platform.Store.Groups.{
  default_group, Rule, Tables, is_rule, create_group, group_of, move_to, allow_egress,
  revoke_egress, seed, SendVerdict, may_send,
}
use agent_mesh_platform.Store.Agents.{default_tenant}
use agent_mesh_platform.Base.RowLaws.{exists-append, ltb-count}
use agent_mesh_platform.Base.{
  ◌==◌, string_eq, nat_eq, first, exists, delete, insert_absent, get_or, ℕ, String, ◌≡◌, refl, ap,
  ◌≢◌, Bool, true, false, not, ◌&&◌, ◌||◌, Option, none, List, [], ◌∷◌, arith,
}

rule_again :
    (t t' x a y b : String) (rules : List Rule)
    → t' ≡ t
    → a ≡ x
    → b ≡ y
    → exists (is_rule t' a b) rules ≡ exists (is_rule t x y) rules
unfolding exists
rule_again t t' x a y b [] p q r = refl
rule_again t t' x a y b (u ∷ rules) p q r = ground (arith, rule_again t t' x a y b rules)

exists-insert_rule :
    (t x y : String) (row : Rule) (rules : List Rule)
    → exists
        (is_rule t x y)
        (insert_absent (is_rule row.tenant row.from_group row.to_group) row rules)
      ≡ (exists (is_rule t x y) rules || is_rule t x y row)
unfolding insert_absent
exists-insert_rule t x y row rules = ground (
  arith,
  rule_again t row.tenant x row.from_group y row.to_group rules,
  exists-append (is_rule t x y) rules (row ∷ []),
)

verdict : String → String → Bool → SendVerdict
verdict from_group to_group answer = record {
  ok = answer;
  from_group = from_group;
  to_group = to_group;
}

-- What `allowEgress` changes for `maySend`: in its tenant, from senders of the one group to
-- recipients of the other, the answer becomes yes; every other answer, the opposite direction's
-- included, stays. The groups that the verdict names do not change.
pub may_send-allow_egress :
    (db : Tables) (tenant : Option String) (a b by : String) (now : ℕ) (from to t : String)
    → let v = may_send db from to t in
      may_send (allow_egress db tenant a b by now) from to t ≡ record v {
        ok = v.ok || (get_or tenant default_tenant == t && a == v.from_group && b == v.to_group);
      }
unfolding may_send allow_egress verdict
may_send-allow_egress db tenant a b by now from to t =
    ap (verdict (group_of db from t) (group_of db to t)) (
      exists-insert_rule t (group_of db from t) (group_of db to t)
        (record {
          tenant = get_or tenant default_tenant;
          from_group = a;
          to_group = b;
          granted_at = now;
          granted_by = by;
        })
        db.egress)

exists-delete_rule :
    (t t' a a' b b' : String) (rules : List Rule)
    → exists (is_rule t a b) (delete (is_rule t' a' b') rules)
      ≡ (not (t' == t && a' == a && b' == b) && exists (is_rule t a b) rules)
unfolding exists delete
exists-delete_rule t t' a a' b b' [] = ground arith
exists-delete_rule t t' a a' b b' (x ∷ rules) =
    ground (arith, exists-delete_rule t t' a a' b b' rules)

-- A revoked rule stops allowing at once and in its own direction only, and the answer of
-- `revokeEgress` is whether the rule was there.
pub may_send-revoke_egress :
    (db : Tables) (tenant : Option String) (a b : String) (from to t : String)
    → let v = may_send db from to t in
      let r = revoke_egress db tenant a b in
      (may_send r.0 from to t ≡ record v {
        ok =
            not (get_or tenant default_tenant == t && a == v.from_group && b == v.to_group) && v.ok;
      })
      × (r.1 ≡ exists (is_rule (get_or tenant default_tenant) a b) db.egress)
unfolding may_send revoke_egress verdict
may_send-revoke_egress db tenant a b from to t =
    let d = get_or tenant default_tenant in
    (
      ap (verdict (group_of db from t) (group_of db to t))
          (exists-delete_rule t d (group_of db from t) a (group_of db to t) b db.egress),
      ltb-count (is_rule d a b) db.egress,
    )

-- A database that has only been seeded: two identities of the default tenant that nobody has placed
-- may send to each other, and a group that somebody has since created, with one of them moved into
-- it, may neither send nor be sent to, not even inside the group.
pub seed_denies_by_default :
    (now : ℕ) (group_id by moved other : String)
    → group_id ≢ default_group
    → moved ≢ other
    → let empty : Tables = record { groups = []; members = []; egress = [] } in
      let db = seed empty now in
      let db' = move_to (create_group db none group_id none by now).0 none moved group_id by now in
      ((may_send db moved other default_tenant).ok ≡ true)
      × ((may_send db' moved other default_tenant).ok ≡ false)
      × ((may_send db' other moved default_tenant).ok ≡ false)
      × ((may_send db' moved moved default_tenant).ok ≡ false)
      × ((may_send db' other other default_tenant).ok ≡ true)
unfolding may_send seed move_to create_group allow_egress insert_absent exists first
seed_denies_by_default now group_id by moved other g m = ground arith
