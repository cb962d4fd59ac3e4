-- ===== src/Hub/RawParams/Skipping.antt =====
-- What the scanner skips is what was printed.
use agent_mesh_platform.Hub.RawParams.Grammar.{
  Piece, unescaped, escaped, print_body, print_string, IsPiece, Block, end, unit, quoted, nested,
  print_block, is_plain, IsBlock,
}
use agent_mesh_platform.Hub.RawParams.Fuel.{skip_block_fuel}
use agent_mesh_platform.Hub.RawParams.{
  Text, is_opening, is_closing, consume, consumes, skip_body, skip_string, skip_block, scan,
}
use mathlib.Core.List.{append_assoc}
use agent_mesh_platform.Base.{
  if◌then◌else◌, ◌==◌, string_eq, nat_eq, length, Every, ℕ, suc, ◌+◌, ◌-◌, ◌≤◌, ◌<◌, ◌≡◌, refl, ap,
  ◌∙◌, true, false, Option, none, List, [], ◌∷◌, ◌++◌, arith, ℕ_discrete,
}

skip_body_unescaped :
    (c : ℕ) (t : Text) → IsPiece (unescaped c) → skip_body (c ∷ t) ≡ consume c (skip_body t)
unfolding skip_body
skip_body_unescaped c [] h = refl
skip_body_unescaped c (d ∷ t) h = ground arith

skip_body_quote : (t : Text) → skip_body (b'"' ∷ t) ≡ (b'"' ∷ [], t)
unfolding skip_body ℕ_discrete
skip_body_quote [] = refl
skip_body_quote (d ∷ t) = refl

skip_body_lem :
    (ps : List Piece) (rest : Text)
    → Every IsPiece ps
    → skip_body (print_body ps ++ b'"' ∷ rest) ≡ (print_body ps ++ b'"' ∷ [], rest)
unfolding skip_body ℕ_discrete
skip_body_lem [] rest h = skip_body_quote rest
skip_body_lem (unescaped c ∷ ps) rest h =
    rw (skip_body_unescaped c (print_body ps ++ b'"' ∷ rest) h.0, skip_body_lem ps rest h.1)
skip_body_lem (escaped c ∷ ps) rest h = rw (skip_body_lem ps rest h.1)

pub skip_string_lem :
    (ps : List Piece) (rest : Text)
    → Every IsPiece ps
    → skip_string (b'"' ∷ (print_body ps ++ b'"' ∷ rest)) ≡ (print_string ps, rest)
unfolding skip_string
skip_string_lem ps rest h = rw (skip_body_lem ps rest h)

-- The loops, with fuel enough for what is left.
abbrev pub block : ℕ → Text → Text × Text
block depth t = skip_block ([], []) (suc (length t)) depth t

abbrev pub scanned : ℕ → ℕ → Text → Option Text
scanned opened closed t = scan none (suc (length t)) opened closed t

block_plain :
    (depth c : ℕ) (t : Text) → is_plain c ≡ true → block depth (c ∷ t) ≡ consume c (block depth t)
unfolding skip_block
block_plain depth c t h = ground arith

pub block_opening :
    (depth c : ℕ) (t : Text)
    → is_opening c ≡ true
    → block depth (c ∷ t) ≡ consume c (block (depth + 1) t)
unfolding skip_block
block_opening depth c t h = ground arith

pub block_closing :
    (depth c : ℕ) (t : Text)
    → is_closing c ≡ true
    → block depth (c ∷ t)
      ≡ (if depth - 1 == 0 then (c ∷ [], t) else consume c (block (depth - 1) t))
unfolding skip_block
block_closing depth c t h = ground arith

pub length_body :
    (ps : List Piece) (rest : Text) → length rest < length (print_body ps ++ b'"' ∷ rest)
length_body [] rest = omega arith
length_body (unescaped c ∷ ps) rest = omega (arith, length_body ps rest)
length_body (escaped c ∷ ps) rest = omega (arith, length_body ps rest)

block_quoted :
    (depth : ℕ) (ps : List Piece) (rest : Text)
    → Every IsPiece ps
    → block depth (b'"' ∷ (print_body ps ++ b'"' ∷ rest))
      ≡ consumes (print_string ps) (block depth rest)
unfolding skip_block ℕ_discrete
block_quoted depth ps rest h =
    let t = print_body ps ++ b'"' ∷ rest in
    rw (skip_string_lem ps rest h) (
      ap (consumes (print_string ps)) (
        skip_block_fuel ([], []) ([], []) (suc (length t)) (suc (length rest)) depth rest
          (omega (arith, length_body ps rest)) (omega arith)))

-- A closing bracket inside of another pair.
block_inner :
    (depth c : ℕ) (t : Text)
    → is_closing c ≡ true
    → 1 ≤ depth
    → block (depth + 1) (c ∷ t) ≡ consume c (block depth t)
block_inner depth c t h d =
    let e : depth + 1 - 1 ≡ depth = omega arith in
    let open_still : (depth == 0) ≡ false = ground arith in
    block_closing (depth + 1) c t h ∙ rw (e, open_still)

pub block_lem :
    (b : Block) (depth : ℕ) (rest : Text)
    → IsBlock b
    → 1 ≤ depth
    → block depth (print_block b ++ rest) ≡ consumes (print_block b) (block depth rest)
block_lem end depth rest h d = refl
block_lem (unit c b) depth rest h d =
    rw (block_plain depth c (print_block b ++ rest) h.0, block_lem b depth rest h.1 d)
block_lem (quoted ps b) depth rest h d =
    simp (
      append_assoc,
      block_quoted depth ps (print_block b ++ rest) h.0,
      block_lem b depth rest h.1 d,
    )
block_lem (nested o c b b') depth rest h d = simp (
  append_assoc,
  block_opening depth o (print_block b ++ (c ∷ (print_block b' ++ rest))) h.0,
  block_lem b (depth + 1) (c ∷ (print_block b' ++ rest)) h.2 (omega arith),
  block_inner depth c (print_block b' ++ rest) h.1 d,
  block_lem b' depth rest h.3 d,
)
