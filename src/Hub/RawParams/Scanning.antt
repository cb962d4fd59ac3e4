-- ===== src/Hub/RawParams/Scanning.antt =====
-- One value, and the scan over what stands inside of one: its strings and brackets match nothing.
use agent_mesh_platform.Hub.RawParams.Skipping.{
  skip_string_lem, block, scanned, block_opening, block_closing, length_body, block_lem,
}
use agent_mesh_platform.Hub.RawParams.Grammar.{
  Piece, print_body, print_string, IsPiece, Block, end, unit, quoted, nested, print_block, is_plain,
  IsBlock, Value, text, bracketed, literal, print_value, is_literal, IsValue,
}
use agent_mesh_platform.Hub.RawParams.Fuel.{scan_fuel}
use agent_mesh_platform.Hub.RawParams.{
  Text, is_opening, is_closing, ends_literal, skip_literal, skip_value, skip_spaces, same_text,
  params_key, after_key, found, scan,
}
use mathlib.Core.List.{append_assoc}
use agent_mesh_platform.Base.{
  if◌then◌else◌, ◌==◌, string_eq, nat_eq, length, Every, ℕ, suc, ◌+◌, ◌≤◌, ◌≡◌, refl, ◌∙◌, true,
  false, ◌&&◌, none, List, [], ◌∷◌, ◌++◌, arith, ℕ_discrete,
}

-- What follows a value: nothing, or a unit that ends a literal.
abbrev pub Stops : Text → Type 0
Stops [] = Unit
Stops (c ∷ t) = ends_literal c ≡ true

skip_literal_lem :
    (t rest : Text)
    → Every (λ d. is_literal d ≡ true) t
    → Stops rest
    → skip_literal (t ++ rest) ≡ (t, rest)
unfolding skip_literal
skip_literal_lem [] [] h s = refl
skip_literal_lem [] (c ∷ rest) h s = ground arith
skip_literal_lem (c ∷ t) rest h s = ground (arith, skip_literal_lem t rest h.1 s)

pub skip_value_lem :
    (v : Value) (rest : Text)
    → IsValue v
    → Stops rest
    → skip_value (print_value v ++ rest) ≡ (print_value v, rest)
unfolding skip_value ℕ_discrete
skip_value_lem (text ps) rest h s = simp (append_assoc, skip_string_lem ps rest h)
skip_value_lem (bracketed o c b) rest h s =
    let t = print_block b ++ (c ∷ rest) in
    let e : block 0 (o ∷ t) ≡ (o ∷ (print_block b ++ c ∷ []), rest) =
      rw (block_opening 0 o t h.0, block_lem b 1 (c ∷ rest) h.2 (omega arith))
        (rw (block_closing 1 c rest h.1)) in
    simp append_assoc (ground (arith, e))
skip_value_lem (literal []) rest h s = elim h [ ]
skip_value_lem (literal (c ∷ t)) rest h s = ground (arith, skip_literal_lem (c ∷ t) rest h s)

pub scan_plain :
    (opened closed c : ℕ) (t : Text)
    → is_plain c ≡ true
    → scanned opened closed (c ∷ t) ≡ scanned opened closed t
unfolding scan
scan_plain opened closed c t h = ground arith

pub scan_opening :
    (opened closed c : ℕ) (t : Text)
    → is_opening c ≡ true
    → scanned opened closed (c ∷ t) ≡ scanned (opened + 1) closed t
unfolding scan
scan_opening opened closed c t h = ground arith

pub scan_closing :
    (opened closed c : ℕ) (t : Text)
    → is_closing c ≡ true
    → scanned opened closed (c ∷ t) ≡ scanned opened (closed + 1) t
unfolding scan
scan_closing opened closed c t h = ground arith

pub scan_quoted :
    (opened closed : ℕ) (ps : List Piece) (rest : Text)
    → Every IsPiece ps
    → scanned opened closed (b'"' ∷ (print_body ps ++ b'"' ∷ rest)) ≡ (
        if opened == closed + 1 && same_text (print_string ps) params_key
        then found (after_key (skip_spaces rest)) (scanned opened closed rest)
        else scanned opened closed rest)
unfolding scan ℕ_discrete
scan_quoted opened closed ps rest h =
    let t = print_body ps ++ b'"' ∷ rest in
    let e =
      scan_fuel none none (suc (length t)) (suc (length rest)) opened closed rest
        (omega (arith, length_body ps rest)) (omega arith) in
    rw (skip_string_lem ps rest h, e)

-- How many pairs of brackets a block has.
abbrev pub brackets : Block → ℕ
brackets end = 0
brackets (unit c b) = brackets b
brackets (quoted ps b) = brackets b
brackets (nested o c b b') = suc (brackets b + brackets b')

scan_at :
    (opened closed opened' closed' : ℕ) (t : Text)
    → opened ≡ opened'
    → closed ≡ closed'
    → scanned opened closed t ≡ scanned opened' closed' t
scan_at opened closed opened' closed' t e f = cc

-- Inside of two brackets at least, no string is taken for the key.
scan_deep_quoted :
    (opened closed : ℕ) (ps : List Piece) (rest : Text)
    → Every IsPiece ps
    → closed + 2 ≤ opened
    → scanned opened closed (b'"' ∷ (print_body ps ++ b'"' ∷ rest)) ≡ scanned opened closed rest
scan_deep_quoted opened closed ps rest h k =
    let deep : (opened == closed + 1) ≡ false = ground arith in
    scan_quoted opened closed ps rest h ∙ rw deep

pub scan_block :
    (b : Block) (opened closed opened' closed' : ℕ) (rest : Text)
    → IsBlock b
    → closed + 2 ≤ opened
    → opened' ≡ opened + brackets b
    → closed' ≡ closed + brackets b
    → scanned opened closed (print_block b ++ rest) ≡ scanned opened' closed' rest
scan_block end o p o' p' rest h k e f = scan_at o p o' p' rest (omega arith) (omega arith)
scan_block (unit c b) o p o' p' rest h k e f =
    scan_plain o p c (print_block b ++ rest) h.0 ∙ scan_block b o p o' p' rest h.1 k e f
scan_block (quoted ps b) o p o' p' rest h k e f =
    simp append_assoc (
      scan_deep_quoted o p ps (print_block b ++ rest) h.0 k ∙ scan_block b o p o' p' rest h.1 k e f)
scan_block (nested i c b b') o p o' p' rest h k e f =
    let m = brackets b in
    simp append_assoc (
      scan_opening o p i (print_block b ++ (c ∷ (print_block b' ++ rest))) h.0
      ∙ scan_block b (o + 1) p (o + 1 + m) (p + m) (c ∷ (print_block b' ++ rest)) h.2 (omega arith)
          refl refl
      ∙ scan_closing (o + 1 + m) (p + m) c (print_block b' ++ rest) h.1
      ∙ scan_block b' (o + 1 + m) (p + m + 1) o' p' rest h.3 (omega arith) (omega arith)
          (omega arith))
