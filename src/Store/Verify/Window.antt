-- ===== src/Store/Verify/Window.antt =====
-- What the window of nonces remembers.
use agent_mesh_platform.Store.Verify.{NonceWindow, claim_in, claim, is_fresh, sweep_entries, sweep}
use agent_mesh_platform.Base.Map.{
  get, put, keep, IsMap, get-put, kept, get-keep, put-IsMap, keep-IsMap,
}
use agent_mesh_platform.Base.{
  if◌then◌else◌, Bool-cases, Option-cases, ◌==◌, string_eq, nat_eq, length, Every, get_or, is_some,
  ℕ, ◌+◌, ◌≤◌, String, ◌≡◌, refl, sym, ◌∙◌, subst, ◌≢◌, ◌⊎◌, inl, inr, true, false, not, ◌&&◌,
  Option, none, some, List, [], ◌∷◌, arith,
}

-- When a nonce of an identity was seen, if the window holds it.
abbrev pub seen_in : String → String → List (String × List (String × ℕ)) → Option ℕ
seen_in identity nonce seen = elim (get identity seen) [
  | none ↦ none
  | some nonces ↦ get nonce nonces
]

abbrev pub Nested : List (String × List (String × ℕ)) → Type 0
Nested [] = Unit
Nested ((_, nonces) ∷ rest) = IsMap nonces × Nested rest

-- Keys stand once, on both levels.
pub record IsWindow (w : NonceWindow) : Type 0 where
  pub outer : IsMap w.seen
  pub inner : Nested w.seen

get-Nested :
    (identity : String) (seen : List (String × List (String × ℕ))) (nonces : List (String × ℕ))
    → Nested seen
    → get identity seen ≡ some nonces
    → IsMap nonces
unfolding get
get-Nested identity [] nonces n e = cc
get-Nested identity ((i, ns) ∷ rest) nonces n e =
    ground (arith, get-Nested identity rest nonces n.1)

put-Nested :
    (identity : String) (nonces : List (String × ℕ)) (seen : List (String × List (String × ℕ)))
    → IsMap nonces
    → Nested seen
    → Nested (put identity nonces seen)
unfolding put
put-Nested identity nonces [] m n = (m, tt)
put-Nested identity nonces ((i, ns) ∷ rest) m n =
    ground (arith, put-Nested identity nonces rest m n.1)

length_zero : (m : List (String × ℕ)) (nonce : String) → length m ≡ 0 → get nonce m ≡ none
unfolding get
length_zero [] nonce h = refl
length_zero (x ∷ m) nonce h = absurd (omega arith)

-- A claim is new exactly if the window does not hold its nonce; it records the nonce with its time,
-- unless it stands there already, and nothing else changes.
pub seen_in-claim :
    (w : NonceWindow) (identity nonce i n : String) (now : ℕ)
    → ((claim w identity nonce now).1 ≡ not (is_some (seen_in identity nonce w.seen)))
      × (seen_in i n (claim w identity nonce now).0.seen ≡ (
          if identity == i && nonce == n
          then some (get_or (seen_in identity nonce w.seen) now)
          else seen_in i n w.seen))
unfolding claim get
seen_in-claim w identity nonce i n now = elim (Option-cases (get identity w.seen)) [
  | inl e ↦ ground (arith, get-put identity i ((nonce, now) ∷ []) w.seen)
  | inr (ns, e) ↦
      ground (arith, get-put identity i (put nonce now ns) w.seen, get-put nonce n now ns)
]

pub claim-IsWindow :
    (w : NonceWindow) (identity nonce : String) (now : ℕ)
    → IsWindow w
    → IsWindow (claim w identity nonce now).0
unfolding claim get
claim-IsWindow w identity nonce now v = elim (Option-cases (get identity w.seen)) [
  | inl e ↦
      rw (e, claim, claim_in)
        (record {
          outer = put-IsMap identity ((nonce, now) ∷ []) w.seen v.outer;
          inner = put-Nested identity ((nonce, now) ∷ []) w.seen (refl, tt) v.inner;
        })
  | inr (ns, e) ↦
      rw (e, claim)
        (elim (Bool-cases (is_some (get nonce ns))) [
          | inl old ↦ rw old v
          | inr new ↦ rw new (record {
            outer = put-IsMap identity (put nonce now ns) w.seen v.outer;
            inner =
                put-Nested identity (put nonce now ns) w.seen
                  (put-IsMap nonce now ns (get-Nested identity w.seen ns v.inner e)) v.inner;
          })
        ])
]

seen_in-sweep_entries :
    (window now : ℕ) (i n : String) (seen : List (String × List (String × ℕ)))
    → IsMap seen
    → Nested seen
    → seen_in i n (sweep_entries window now seen)
      ≡ kept (λ _ at. is_fresh window now at) n (seen_in i n seen)
unfolding sweep_entries get
seen_in-sweep_entries window now i n [] m v = refl
seen_in-sweep_entries window now i n ((j, ns) ∷ rest) m v = ground (
  arith,
  seen_in-sweep_entries window now i n rest m.1 v.1,
  get-keep (λ _ at. is_fresh window now at) n ns v.0,
  length_zero (keep (λ _ at. is_fresh window now at) ns) n,
)

get-none-sweep :
    (window now : ℕ) (i : String) (seen : List (String × List (String × ℕ)))
    → get i seen ≡ none
    → get i (sweep_entries window now seen) ≡ none
unfolding sweep_entries get
get-none-sweep window now i [] h = refl
get-none-sweep window now i ((j, ns) ∷ rest) h = ground (arith, get-none-sweep window now i rest)

sweep-IsWindow_entries :
    (window now : ℕ) (seen : List (String × List (String × ℕ)))
    → IsMap seen
    → Nested seen
    → IsMap (sweep_entries window now seen) × Nested (sweep_entries window now seen)
unfolding sweep_entries get
sweep-IsWindow_entries window now [] m v = (tt, tt)
sweep-IsWindow_entries window now ((j, ns) ∷ rest) m v =
    let left = keep-IsMap (λ _ at. is_fresh window now at) ns v.0 in
    let (outer, inner) = sweep-IsWindow_entries window now rest m.1 v.1 in
    elim (Bool-cases (length (keep (λ _ at. is_fresh window now at) ns) == 0)) [
      | inl gone ↦ rw gone (outer, inner)
      | inr stays ↦ rw stays ((get-none-sweep window now j rest m.0, outer), (left, inner))
    ]

-- What happens to a window: claims, and sweeps by the timer.
pub data Act : Type 0 where
  claims : (identity nonce : String) (iat : ℕ) → Act
  sweeps : (now : ℕ) → Act

unfoldable pub act : NonceWindow → Act → NonceWindow
act w (claims identity nonce iat) = (claim w identity nonce iat).0
act w (sweeps now) = sweep w now

unfoldable pub acts : NonceWindow → List Act → NonceWindow
acts w [] = w
acts w (a ∷ as') = acts (act w a) as'

-- A sweep among the acts runs no later than a time.
abbrev pub Timely : ℕ → Act → Type 0
Timely last (claims _ _ _) = Unit
Timely last (sweeps now) = now ≤ last

act-IsWindow : (w : NonceWindow) (a : Act) → IsWindow w → IsWindow (act w a)
unfolding act sweep
act-IsWindow w (claims identity nonce iat) v = claim-IsWindow w identity nonce iat v
act-IsWindow w (sweeps now) v =
    let (outer, inner) = sweep-IsWindow_entries w.window_seconds now w.seen v.outer v.inner in
    record { outer = outer; inner = inner }

window-act : (w : NonceWindow) (a : Act) → (act w a).window_seconds ≡ w.window_seconds
unfolding act claim sweep
window-act w (claims identity nonce now) = ground arith
window-act w (sweeps now) = refl

pub window-acts :
    (w : NonceWindow) (as' : List Act) → (acts w as').window_seconds ≡ w.window_seconds
unfolding acts
window-acts w [] = refl
window-acts w (a ∷ as') = window-acts (act w a) as' ∙ window-act w a

-- An entry stays through an act, where a sweep runs while its time is inside the window.
seen_in-act :
    (w : NonceWindow) (a : Act) (identity nonce : String) (at : ℕ)
    → IsWindow w
    → seen_in identity nonce w.seen ≡ some at
    → Timely (at + w.window_seconds) a
    → seen_in identity nonce (act w a).seen ≡ some at
unfolding act sweep
seen_in-act w (claims i n iat) identity nonce at v e s =
    ground (arith, seen_in-claim w i n identity nonce iat)
seen_in-act w (sweeps now) identity nonce at v e s =
    rw (seen_in-sweep_entries w.window_seconds now identity nonce w.seen v.outer v.inner, e)
      (ground arith)

-- So it stays through any acts whose sweeps all do.
seen_in-acts :
    (w : NonceWindow) (rest : List Act) (identity nonce : String) (at : ℕ)
    → IsWindow w
    → seen_in identity nonce w.seen ≡ some at
    → Every (Timely (at + w.window_seconds)) rest
    → seen_in identity nonce (acts w rest).seen ≡ some at
unfolding acts
seen_in-acts w [] identity nonce at v e s = e
seen_in-acts w (a ∷ rest) identity nonce at v e s =
    seen_in-acts (act w a) rest identity nonce at (act-IsWindow w a v)
      (seen_in-act w a identity nonce at v e s.0)
      (subst (λ u. Every (Timely (at + u)) rest) (sym (window-act w a)) s.1)

-- A nonce is spent once: after a claim that was new, whatever is claimed and swept in between, the
-- same identity's claim of the same nonce is refused, provided that no sweep ran later than the
-- window's width after the time under which the nonce was recorded.
pub claim_once :
    (w : NonceWindow) (identity nonce : String) (iat later : ℕ) (between : List Act)
    → IsWindow w
    → (claim w identity nonce iat).1 ≡ true
    → Every (Timely (iat + w.window_seconds)) between
    → (claim (acts (claim w identity nonce iat).0 between) identity nonce later).1 ≡ false
unfolding act
claim_once w identity nonce iat later between v new timely =
    let w' = (claim w identity nonce iat).0 in
    let recorded = seen_in-claim w identity nonce identity nonce iat in
    let held : seen_in identity nonce w'.seen ≡ some iat = ground (arith, recorded) in
    ground (
      arith,
      seen_in-acts w' between identity nonce iat (claim-IsWindow w identity nonce iat v) held (
          subst (λ u. Every (Timely (iat + u)) between)
            (sym (window-act w (claims identity nonce iat))) timely),
      seen_in-claim (acts w' between) identity nonce identity nonce later,
    )

-- Nonces of different identities, and different nonces, do not collide.
pub claim_other :
    (w : NonceWindow) (identity nonce i n : String) (iat later : ℕ)
    → ((identity ≢ i) ⊎ (nonce ≢ n))
    → (claim (claim w identity nonce iat).0 i n later).1 ≡ (claim w i n later).1
claim_other w identity nonce i n iat later different = ground (
  arith,
  seen_in-claim w identity nonce i n iat,
  seen_in-claim w i n i n later,
  seen_in-claim (claim w identity nonce iat).0 i n i n later,
)
