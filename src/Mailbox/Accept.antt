-- ===== src/Mailbox/Accept.antt =====
-- What an accept leaves, and that a key of a sender is good for one message.
use agent_mesh_platform.Mailbox.{
  IdempotencyRow, MeshDb, AcceptOptions, Constraint, accepted_row, stats_row, is_key, remember,
  accept,
}
use agent_mesh_platform.Store.Messages.{mail_status_eq, is_id, message_by_id}
use agent_mesh_platform.Base.RowLaws.{exists-append, first-append}
use agent_mesh_platform.Base.{
  Bool-cases, ◌==◌, string_eq, nat_eq, first, exists, Result, ok, err, is_some, Result-cases, ℕ,
  String, ◌≡◌, inl, inr, Bool, true, false, ◌&&◌, ◌||◌, Option, none, some, List, [], ◌∷◌, ◌++◌,
  arith,
}

-- What was remembered, where the options carry a key.
pub remember_keyed :
    (keys keys' : List IdempotencyRow) (o : AcceptOptions) (now : ℕ) (digest key sender : String)
    → o.idempotency_digest ≡ some digest
    → o.client_message_id ≡ some key
    → o.sent_by ≡ some sender
    → remember keys o now ≡ ok keys'
    → exists (is_key sender key) keys' ≡ true
unfolding remember exists
remember_keyed keys keys' o now digest key sender ed ek es h =
    ground (arith, exists-append (is_key sender key) keys (row ∷ []))
  where
    row : IdempotencyRow
    row = record {
      sent_by = sender;
      client_message_id = key;
      request_digest = digest;
      message_id = o.id;
      status = o.status;
      created_at = now;
    }

-- What an accept leaves.
abbrev pub stored {ℓ} :
    {S : Type ℓ} → (S → S) → MeshDb S → AcceptOptions → ℕ → List IdempotencyRow → MeshDb S
stored also db o now keys = record {
  messages = db.messages ++ accepted_row o now ∷ [];
  stats = db.stats ++ stats_row o now ∷ [];
  idempotency = keys;
  other = also db.other;
}

ok_injective {ℓ κ} :
    {E : Type ℓ} {A : Type κ} (x : Result E A) (a b : A) → x ≡ ok a → x ≡ ok b → a ≡ b
ok_injective x a b h k = cc

pub accept_ok {ℓ} :
    {S : Type ℓ} (also : S → S) (db db' : MeshDb S) (o : AcceptOptions) (now : ℕ)
    → accept also db o now ≡ ok db'
    → (keys : List IdempotencyRow) × (exists (is_id o.id) db.messages ≡ false)
      × (remember db.idempotency o now ≡ ok keys)
      × (stored also db o now keys ≡ db')
unfolding accept
accept_ok also db db' o now h =
    elim (Bool-cases
      (exists (is_id o.id) db.messages || exists (λ r. r.message_id == o.id) db.stats)) [
        | inl taken ↦ absurd (ground arith)
        | inr new ↦ elim (Result-cases (remember db.idempotency o now)) [
          | inl (e, r) ↦ absurd (ground arith)
          | inr (keys, r) ↦ (keys, ground arith, r, ok_injective _ _ _ (ground arith) h)
        ]
      ]

pub stored_message {ℓ} :
    {S : Type ℓ} (also : S → S) (db : MeshDb S) (o : AcceptOptions) (now : ℕ)
    (keys : List IdempotencyRow)
    → exists (is_id o.id) db.messages ≡ false
    → (message_by_id (stored also db o now keys).messages o.id ≡ some (accepted_row o now))
      × (exists (λ r. r.message_id == o.id) (stored also db o now keys).stats ≡ true)
unfolding message_by_id first exists
stored_message also db o now keys new = ground (
  arith,
  first-append (is_id o.id) db.messages (accepted_row o now ∷ []),
  exists-append (λ r. r.message_id == o.id) db.stats (stats_row o now ∷ []),
)

abbrev pub to_list : Option String → List String
to_list none = []
to_list (some s) = s ∷ []

-- Whether a message comes with a digest, under a sender's key.
abbrev pub is_keyed : String → String → AcceptOptions → Bool
is_keyed sender key o =
    is_some o.idempotency_digest
    && (exists (λ k. k == key) (to_list o.client_message_id)
        && exists (λ s. s == sender) (to_list o.sent_by))

abbrev pub is_taken {ℓ} : {S : Type ℓ} → Result (Constraint × S) (MeshDb S) → Bool
is_taken (ok db) = true
is_taken (err e) = false
