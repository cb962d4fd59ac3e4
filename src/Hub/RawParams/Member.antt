-- ===== src/Hub/RawParams/Member.antt =====
-- The parts of a member under the scanner: white space, the value that is skipped, and the one that is
-- cut out.
use agent_mesh_platform.Hub.RawParams.Scanning.{
  Stops, skip_value_lem, scan_plain, scan_opening, scan_closing, scan_quoted, brackets, scan_block,
}
use agent_mesh_platform.Hub.RawParams.Skipping.{scanned}
use agent_mesh_platform.Hub.RawParams.Grammar.{
  print_block, Value, text, bracketed, literal, print_value, is_literal, IsValue, IsBlank, Member,
  IsMember,
}
use agent_mesh_platform.Hub.RawParams.{
  Text, is_space, ends_literal, skip_spaces, non_empty, after_key,
}
use mathlib.Core.List.{append_assoc}
use agent_mesh_platform.Base.{
  ◌==◌, string_eq, nat_eq, Every, ℕ, ◌+◌, ◌≡◌, refl, ◌∙◌, Bool, true, ◌||◌, none, some, [], ◌∷◌,
  ◌++◌, arith, ℕ_discrete,
}

skip_blanks : (t rest : Text) → IsBlank t → skip_spaces (t ++ rest) ≡ skip_spaces rest
unfolding skip_spaces is_space
skip_blanks [] rest h = refl
skip_blanks (c ∷ t) rest h = ground (arith, skip_blanks t rest h.1)

pub scan_blanks :
    (opened closed : ℕ) (t rest : Text)
    → IsBlank t
    → scanned opened closed (t ++ rest) ≡ scanned opened closed rest
scan_blanks opened closed [] rest h = refl
scan_blanks opened closed (c ∷ t) rest h =
    scan_plain opened closed c (t ++ rest) (ground arith) ∙ scan_blanks opened closed t rest h.1

scan_literal :
    (opened closed : ℕ) (t rest : Text)
    → Every (λ d. is_literal d ≡ true) t
    → scanned opened closed (t ++ rest) ≡ scanned opened closed rest
scan_literal opened closed [] rest h = refl
scan_literal opened closed (c ∷ t) rest h =
    scan_plain opened closed c (t ++ rest) (ground arith) ∙ scan_literal opened closed t rest h.1

-- A comma or a closing brace.
abbrev pub ends_member : ℕ → Bool
ends_member d = d == b',' || d == b'}'

blanks-Stops : (t : Text) (d : ℕ) (u : Text) → IsBlank t → ends_member d ≡ true → Stops (t ++ d ∷ u)
unfolding ends_literal
blanks-Stops [] d u h e = ground arith
blanks-Stops (c ∷ t) d u h e = ground arith

no_colon :
    (t : Text) (d : ℕ) (u : Text)
    → IsBlank t
    → ends_member d ≡ true
    → after_key (skip_spaces (t ++ d ∷ u)) ≡ none
unfolding after_key skip_spaces is_space
no_colon [] d u h e = ground arith
no_colon (c ∷ t) d u h e = ground (arith, no_colon t d u h.1 e)

-- A text value is no key, whatever it says: no colon follows it.
pub scan_value :
    (v : Value) (opened closed : ℕ) (t : Text) (d : ℕ) (u : Text)
    → IsValue v
    → opened ≡ closed + 1
    → IsBlank t
    → ends_member d ≡ true
    → (o c : ℕ) × (o ≡ c + 1)
      × (scanned opened closed (print_value v ++ (t ++ d ∷ u)) ≡ scanned o c (t ++ d ∷ u))
scan_value (text ps) opened closed t d u h e b k = (
  opened,
  closed,
  e,
  simp append_assoc
      (scan_quoted opened closed ps (t ++ d ∷ u) h ∙ ground (arith, no_colon t d u b k)),
)
scan_value (bracketed i j b) opened closed t d u h e bl k = (
  opened + 1 + brackets b,
  closed + brackets b + 1,
  omega arith,
  simp append_assoc (
      scan_opening opened closed i (print_block b ++ (j ∷ (t ++ d ∷ u))) h.0
      ∙ scan_block b (opened + 1) closed (opened + 1 + brackets b) (closed + brackets b)
          (j ∷ (t ++ d ∷ u)) h.2 (omega arith) refl refl
      ∙ scan_closing (opened + 1 + brackets b) (closed + brackets b) j (t ++ d ∷ u) h.1),
)
scan_value (literal []) opened closed t d u h e b k = elim h [ ]
scan_value (literal (x ∷ xs)) opened closed t d u h e b k =
    (opened, closed, e, scan_literal opened closed (x ∷ xs) (t ++ d ∷ u) h)

value_start :
    (v : Value) (rest : Text)
    → IsValue v
    → skip_spaces (print_value v ++ rest) ≡ print_value v ++ rest
unfolding skip_spaces is_space ℕ_discrete
value_start (text ps) rest h = refl
value_start (bracketed o c b) rest h = ground arith
value_start (literal []) rest h = elim h [ ]
value_start (literal (c ∷ t)) rest h = ground arith

value_found :
    (v : Value) (rest : Text) → IsValue v → non_empty (print_value v, rest) ≡ some (print_value v)
value_found (text ps) rest h = refl
value_found (bracketed o c b) rest h = refl
value_found (literal []) rest h = elim h [ ]
value_found (literal (c ∷ t)) rest h = refl

pub member_value :
    (m : Member) (d : ℕ) (u : Text)
    → IsMember m
    → ends_member d ≡ true
    → after_key (
        skip_spaces
          (m.between ++ b':' ∷ (m.after ++ (print_value m.value ++ (m.trailing ++ d ∷ u)))))
      ≡ some (some (print_value m.value))
unfolding after_key skip_spaces is_space ℕ_discrete
member_value m d u h k =
    let rest = m.trailing ++ d ∷ u in
    let s = blanks-Stops m.trailing d u h.trailing k in
    rw (
      skip_blanks m.between (b':' ∷ (m.after ++ (print_value m.value ++ rest))) h.between,
      skip_blanks m.after (print_value m.value ++ rest) h.after,
      value_start m.value rest h.value,
      skip_value_lem m.value rest h.value s,
      value_found m.value rest h.value,
    )
