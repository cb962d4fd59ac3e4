-- ===== src/Hub/RawParams/Fuel.antt =====
-- The scanner ends: more fuel than the text is long changes nothing.
use agent_mesh_platform.Hub.RawParams.{Text, skip_body, skip_string, skip_block, scan, raw_params}
use agent_mesh_platform.Base.{
  length, ℕ, zero, suc, ◌+◌, ◌-◌, ◌≤◌, ◌<◌, ◌≡◌, refl, Option, none, [], ◌∷◌, arith,
}

-- What a string's scan leaves is shorter than the text by at least its quote.
skip_body-length : (t : Text) → length (skip_body t).1 ≤ length t
unfolding skip_body
skip_body-length [] = omega arith
skip_body-length (c ∷ []) = omega arith
skip_body-length (c ∷ d ∷ t) = ground (arith, skip_body-length t, skip_body-length (d ∷ t))

pub skip_block_fuel :
    (x y : Text × Text) (f g depth : ℕ) (t : Text)
    → length t < f
    → length t < g
    → skip_block x f depth t ≡ skip_block y g depth t
unfolding skip_block skip_string
skip_block_fuel x y zero g depth t h k = absurd (omega arith)
skip_block_fuel x y (suc f) zero depth t h k = absurd (omega arith)
skip_block_fuel x y (suc f) (suc g) depth [] h k = refl
skip_block_fuel x y (suc f) (suc g) depth (c ∷ t) h k = ground (
  arith,
  skip_body-length t,
  skip_block_fuel x y f g depth (skip_body t).1,
  skip_block_fuel x y f g (depth + 1) t,
  skip_block_fuel x y f g (depth - 1) t,
  skip_block_fuel x y f g depth t,
)

pub scan_fuel :
    (x y : Option Text) (f g opened closed : ℕ) (t : Text)
    → length t < f
    → length t < g
    → scan x f opened closed t ≡ scan y g opened closed t
unfolding scan skip_string
scan_fuel x y zero g opened closed t h k = absurd (omega arith)
scan_fuel x y (suc f) zero opened closed t h k = absurd (omega arith)
scan_fuel x y (suc f) (suc g) opened closed [] h k = refl
scan_fuel x y (suc f) (suc g) opened closed (c ∷ t) h k = ground (
  arith,
  skip_body-length t,
  scan_fuel x y f g opened closed (skip_body t).1,
  scan_fuel x y f g (opened + 1) closed t,
  scan_fuel x y f g opened (closed + 1) t,
  scan_fuel x y f g opened closed t,
)

-- The scanner ends on every text, and so does its loop over an object or an array, at any depth: each
-- round consumes a unit at least, so that with any fuel above the text's length the answer is the one
-- that the scanner gives, whatever is answered where fuel runs out. It never does.
pub raw_params_fuel :
    (text : Text) (fuel depth : ℕ) (spent : Option Text) (spent_block : Text × Text)
    → length text < fuel
    → (scan spent fuel 0 0 text ≡ raw_params text)
      × (skip_block spent_block fuel depth text
          ≡ skip_block ([], []) (suc (length text)) depth text)
unfolding raw_params
raw_params_fuel text fuel depth spent spent_block h = (
  scan_fuel spent none fuel (suc (length text)) 0 0 text h (omega arith),
  skip_block_fuel spent_block ([], []) fuel (suc (length text)) depth text h (omega arith),
)
