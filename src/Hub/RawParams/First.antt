-- ===== src/Hub/RawParams/First.antt =====
-- The scanner on the text of an object: the value of the first member whose key is `params`, as it is
-- written.
use agent_mesh_platform.Hub.RawParams.Member.{scan_blanks, ends_member, scan_value, member_value}
use agent_mesh_platform.Hub.RawParams.Scanning.{scan_plain, scan_opening, scan_closing, scan_quoted}
use agent_mesh_platform.Hub.RawParams.Skipping.{scanned}
use agent_mesh_platform.Hub.RawParams.Grammar.{
  print_string, print_value, Member, IsMember, print_member, print_members, print_object, is_params,
}
use agent_mesh_platform.Hub.RawParams.{Text, skip_spaces, after_key, found, scan, raw_params}
use mathlib.Core.List.{append_assoc}
use agent_mesh_platform.Base.{
  if◌then◌else◌, Bool-cases, ◌==◌, string_eq, nat_eq, first, Every, ℕ, ◌+◌, ◌≡◌, refl, ◌∙◌, inl,
  inr, true, false, Option, none, some, List, [], ◌∷◌, ◌++◌, arith, ℕ_discrete,
}

-- From the colon on.
abbrev rest_of : Member → Text → Text
rest_of m u = m.between ++ b':' ∷ (m.after ++ (print_value m.value ++ (m.trailing ++ u)))

scan_key :
    (m : Member) (opened closed : ℕ) (u : Text)
    → IsMember m
    → opened ≡ closed + 1
    → scanned opened closed (print_member m u) ≡ (
        if is_params m
        then found (after_key (skip_spaces (rest_of m u))) (scanned opened closed (rest_of m u))
        else scanned opened closed (rest_of m u))
scan_key m opened closed u h e =
    let here : (opened == closed + 1) ≡ true = ground arith in
    scan_blanks opened closed m.before (print_string m.key ++ rest_of m u) h.before
    ∙ simp append_assoc (scan_quoted opened closed m.key (rest_of m u) h.key ∙ rw here)

scan_params :
    (m : Member) (opened closed d : ℕ) (u : Text)
    → IsMember m
    → opened ≡ closed + 1
    → ends_member d ≡ true
    → is_params m ≡ true
    → scanned opened closed (print_member m (d ∷ u)) ≡ some (print_value m.value)
scan_params m opened closed d u h e k p =
    scan_key m opened closed (d ∷ u) h e ∙ rw (p, member_value m d u h k)

scan_other :
    (m : Member) (opened closed d : ℕ) (u : Text)
    → IsMember m
    → opened ≡ closed + 1
    → ends_member d ≡ true
    → is_params m ≡ false
    → (o c : ℕ) × (o ≡ c + 1)
      × (scanned opened closed (print_member m (d ∷ u)) ≡ scanned o c (d ∷ u))
unfolding ℕ_discrete
scan_other m opened closed d u h e k p =
    let after = m.trailing ++ d ∷ u in
    let (o, c, e', v) = scan_value m.value opened closed m.trailing d u h.value e h.trailing k in
    (
      o,
      c,
      e',
      scan_key m opened closed (d ∷ u) h e
          ∙ rw p (
              scan_blanks opened closed m.between
                (b':' ∷ (m.after ++ (print_value m.value ++ after))) h.between
              ∙ scan_plain opened closed b':' (m.after ++ (print_value m.value ++ after)) refl
              ∙ scan_blanks opened closed m.after (print_value m.value ++ after) h.after
              ∙ v
              ∙ scan_blanks o c m.trailing (d ∷ u) h.trailing),
    )

-- The bytes of the value of a member, if there is one.
abbrev pub value_of : Option Member → Option Text
value_of none = none
value_of (some m) = some (print_value m.value)

scan_members :
    (m : Member) (ms : List Member) (opened closed : ℕ)
    → IsMember m
    → Every IsMember ms
    → opened ≡ closed + 1
    → scanned opened closed (print_members m ms []) ≡ value_of (first is_params (m ∷ ms))
unfolding first scan ℕ_discrete
scan_members m [] opened closed h hs e = elim (Bool-cases (is_params m)) [
  | inl p ↦ scan_params m opened closed b'}' [] h e refl p ∙ rw p
  | inr p ↦
      let (o, c, e', s) = scan_other m opened closed b'}' [] h e refl p in
      s ∙ scan_closing o c b'}' [] refl ∙ rw p
]
scan_members m (m' ∷ ms) opened closed h hs e = elim (Bool-cases (is_params m)) [
  | inl p ↦ scan_params m opened closed b',' (print_members m' ms []) h e refl p ∙ rw p
  | inr p ↦
      let (o, c, e', s) = scan_other m opened closed b',' (print_members m' ms []) h e refl p in
      s
      ∙ scan_plain o c b',' (print_members m' ms []) refl
      ∙ scan_members m' ms o c hs.0 hs.1 e'
      ∙ rw p
]

-- On the text of an object the scanner gives the value of the first member whose key is written
-- `params`, unit for unit as it stands there, and nothing where there is no such key. Strings that say
-- `params` elsewhere, nested objects that have such a key and a later member of that key do not change
-- this.
pub raw_params_lem :
    (m : Member) (ms : List Member)
    → IsMember m
    → Every IsMember ms
    → raw_params (print_object m ms) ≡ value_of (first is_params (m ∷ ms))
unfolding raw_params ℕ_discrete
raw_params_lem m ms h hs =
    scan_opening 0 0 b'{' (print_members m ms []) refl ∙ scan_members m ms 1 0 h hs refl
