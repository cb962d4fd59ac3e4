-- ===== src/Hub/Refusals.antt =====
-- packages/hub/src/refusals.ts: the counters of what the hub refused. The key is the pair that the code
-- joins with a NUL, which no kind and no reason contains.
pub mod Counts
mod Tests
use agent_mesh_platform.Base.Order.{order_by}
use agent_mesh_platform.Base.Map.{get, put}
use agent_mesh_platform.Base.{
  leb, if◌then◌else◌, String-discrete, Eq, ◌==◌, string_eq, nat_eq, get_or, ℕ, ◌+◌, String, ◌≡◌, ap,
  Bool, List, map,
}

pub data RefusalKind : Type 0 where
  signature egress : RefusalKind

pub record CounterKey : Type 0 where
  pub kind : RefusalKind
  pub reason : String

unfoldable pub RefusalKind-discrete : Discrete RefusalKind
RefusalKind-discrete = hlevel

same_key : (a b : CounterKey) → Dec (a.kind ≡ b.kind) → Dec (a.reason ≡ b.reason) → Dec (a ≡ b)
same_key a b (yes k) (yes r) = yes cc
same_key a b (yes k) (no r) = no (λ e. r (ap (λ (c : CounterKey). c.reason) e))
same_key a b (no k) r = no (λ e. k (ap (λ (c : CounterKey). c.kind) e))

unfoldable pub CounterKey-discrete : Discrete CounterKey
unfolding same_key
CounterKey-discrete a b =
    same_key a b (RefusalKind-discrete a.kind b.kind) (String-discrete a.reason b.reason)

instance abbrev pub key_eq : Eq CounterKey
key_eq = record { dec = CounterKey-discrete }

unfoldable pub record_refusal : List (CounterKey × ℕ) → RefusalKind → String → List (CounterKey × ℕ)
record_refusal counts kind reason =
    let k : CounterKey = record { kind = kind; reason = reason } in
    put k (get_or (get k counts) 0 + 1) counts

pub record RefusalCount : Type 0 where
  pub kind : RefusalKind
  pub reason : String
  pub count : ℕ

-- `a.reason.localeCompare(b.reason) <= 0` is the runtime's: an argument.
pub refusal_counts : (String → String → Bool) → List (CounterKey × ℕ) → List RefusalCount
refusal_counts locale_le counts =
    order_by
      (λ a b. if a.count == b.count then locale_le a.reason b.reason else leb b.count a.count)
      (map (λ kc. record { kind = kc.0.kind; reason = kc.0.reason; count = kc.1 }) counts)
