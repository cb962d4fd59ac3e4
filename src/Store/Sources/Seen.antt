-- ===== src/Store/Sources/Seen.antt =====
-- A place that was recorded is known from then on.
use agent_mesh_platform.Store.Sources.{
  AgentSource, is_source, truthy, record_source, same_place, observed_by, known_at, seen_before,
}
use agent_mesh_platform.Store.Agents.{}
use agent_mesh_platform.Base.RowLaws.{}
use agent_mesh_platform.Base.{
  Bool-cases, Option-cases, ◌==◌, string_eq, nat_eq, select, exists, update, ℕ, ◌+◌, String, ◌≡◌,
  refl, sym, ap, ◌∙◌, inl, inr, Bool, true, false, Option, none, some, List, [], ◌∷◌, ◌++◌, arith,
}

abbrev at_place : (Option String → Option String) → String → AgentSource → Bool
at_place group here s = same_place (group (some s.observed)) (group (some here))

same_place_refl : (o : Option String) → same_place o o ≡ true
same_place_refl none = refl
same_place_refl (some a) = ground arith

-- The rows of an identity at a place, after one request was recorded.
known-record :
    (sources : List AgentSource) (identity o : String) (now : ℕ)
    (group : Option String → Option String)
    → exists (is_source identity o) sources ≡ true
    → exists (at_place group o) (
        observed_by identity (
          update
            (is_source identity o)
            (λ r. record r { last_seen = now; requests = r.requests + 1 })
            sources))
      ≡ true
unfolding exists select update
known-record [] identity o now group h = h
known-record (r ∷ sources) identity o now group h =
    ground (arith, known-record sources identity o now group, same_place_refl (group (some o)))

known-append :
    (sources : List AgentSource) (r : AgentSource) (identity o : String)
    (group : Option String → Option String)
    → r.identity ≡ identity
    → r.observed ≡ o
    → exists (at_place group o) (observed_by identity (sources ++ r ∷ [])) ≡ true
unfolding exists select
known-append [] r identity o group e f = ground (arith, same_place_refl (group (some o)))
known-append (s ∷ sources) r identity o group e f =
    ground (arith, known-append sources r identity o group e f)

known_at-exists :
    (group : Option String → Option String) (here : String) (rows : List AgentSource)
    → exists (at_place group here) rows ≡ true
    → known_at group here rows ≡ true
unfolding exists
known_at-exists group here [] h = refl
known_at-exists group here (r ∷ rows) h = h

others-update :
    (sources : List AgentSource) (identity o other : String) (now : ℕ)
    → (identity == other) ≡ false
    → observed_by other (
        update
          (is_source identity o)
          (λ r. record r { last_seen = now; requests = r.requests + 1 })
          sources)
      ≡ observed_by other sources
unfolding select update
others-update [] identity o other now n = refl
others-update (r ∷ sources) identity o other now n =
    ground (arith, others-update sources identity o other now n)

others-append :
    (sources : List AgentSource) (r : AgentSource) (other : String)
    → (r.identity == other) ≡ false
    → observed_by other (sources ++ r ∷ []) ≡ observed_by other sources
unfolding select
others-append [] r other n = ground arith
others-append (s ∷ sources) r other n = ground (arith, others-append sources r other n)

truthy-given : (t : Option String) (s : String) → truthy t ≡ some s → t ≡ some s
truthy-given t s h = ground arith

known_at-group :
    (group : Option String → Option String) (here there : String) (rows : List AgentSource)
    → group (some here) ≡ group (some there)
    → known_at group here rows ≡ known_at group there rows
known_at-group group here there [] e = refl
known_at-group group here there (r ∷ rows) e =
    ap (λ g. exists (λ s. same_place (group (some s.observed)) g) (r ∷ rows)) e

pub seen_self :
    (sources : List AgentSource) (identity : String) (observed : Option String) (now : ℕ)
    (group : Option String → Option String)
    → seen_before (record_source sources identity observed now) identity observed group ≡ true
unfolding seen_before record_source
seen_self sources identity observed now group = elim (Option-cases (truthy observed)) [
  | inl e ↦ ground arith
  | inr (o, e) ↦
      let r : AgentSource = record {
        identity = identity;
        observed = o;
        first_seen = now;
        last_seen = now;
        requests = 1;
      } in
      elim (Bool-cases (exists (is_source identity o) sources)) [
        | inl old ↦ ground (
          arith,
          known_at-exists group o (
              observed_by identity (
                update (is_source identity o)
                  (λ s. record s { last_seen = now; requests = s.requests + 1 }) sources)),
          known-record sources identity o now group old,
        )
        | inr new ↦ ground (
          arith,
          known_at-exists group o (observed_by identity (sources ++ r ∷ [])),
          known-append sources r identity o group refl refl,
        )
      ]
]

-- So does every address that is grouped with it.
pub seen_near :
    (sources : List AgentSource) (identity : String) (observed near : Option String) (o : String)
    (now : ℕ) (group : Option String → Option String)
    → truthy observed ≡ some o
    → group near ≡ group observed
    → seen_before (record_source sources identity observed now) identity near group ≡ true
unfolding seen_before
seen_near sources identity observed near o now group e g = elim (Option-cases (truthy near)) [
  | inl n ↦ ground arith
  | inr (m, n) ↦
      let self = seen_self sources identity observed now group in
      let same : group (some m) ≡ group (some o) =
        ap group (sym (truthy-given near m n)) ∙ g ∙ ap group (truthy-given observed o e) in
      ground (
        arith,
        self,
        known_at-group group m o
            (observed_by identity (record_source sources identity observed now)) same,
      )
]

seen_others :
    (sources : List AgentSource) (identity other : String) (observed : Option String) (now : ℕ)
    → (identity == other) ≡ false
    → observed_by other (record_source sources identity observed now) ≡ observed_by other sources
unfolding record_source
seen_others sources identity other observed now n = elim (Option-cases (truthy observed)) [
  | inl e ↦ ground arith
  | inr (o, e) ↦
      let r : AgentSource = record {
        identity = identity;
        observed = o;
        first_seen = now;
        last_seen = now;
        requests = 1;
      } in
      elim (Bool-cases (exists (is_source identity o) sources)) [
        | inl old ↦ ground (arith, others-update sources identity o other now n)
        | inr new ↦ ground (arith, others-append sources r other n)
      ]
]

-- Once a request was recorded from an address, the identity has been seen there, whatever the grouping
-- of addresses; and what is known of every other identity is as it was.
pub seen_before-record_source :
    (sources : List AgentSource) (identity other : String) (observed place : Option String)
    (now : ℕ) (group : Option String → Option String)
    → (identity == other) ≡ false
    → (seen_before (record_source sources identity observed now) identity observed group ≡ true)
      × (seen_before (record_source sources identity observed now) other place group
          ≡ seen_before sources other place group)
unfolding seen_before
seen_before-record_source sources identity other observed place now group n = (
  seen_self sources identity observed now group,
  ground (arith, seen_others sources identity other observed now n),
)
