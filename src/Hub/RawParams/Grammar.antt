-- ===== src/Hub/RawParams/Grammar.antt =====
-- The texts of JSON objects, as far as the scanner tells them apart: strings with their escapes, nested
-- objects and arrays, and literals; white space stands wherever JSON takes it.
use agent_mesh_platform.Hub.RawParams.{
  Text, is_space, is_opening, is_closing, ends_literal, same_text, params_key,
}
use agent_mesh_platform.Base.{
  ◌==◌, string_eq, nat_eq, Every, ℕ, ◌≡◌, Bool, true, false, not, ◌&&◌, ◌||◌, List, [], ◌∷◌, ◌++◌,
}

-- A unit inside a string, or a backslash with the unit after it.
pub data Piece : Type 0 where
  unescaped escaped : ℕ → Piece

abbrev pub print_body : List Piece → Text
print_body [] = []
print_body (unescaped c ∷ ps) = c ∷ print_body ps
print_body (escaped c ∷ ps) = b'\\' ∷ c ∷ print_body ps

abbrev pub print_string : List Piece → Text
print_string ps = b'"' ∷ (print_body ps ++ b'"' ∷ [])

abbrev pub IsPiece : Piece → Type 0
IsPiece (unescaped c) = ((c == b'"') ≡ false) × ((c == b'\\') ≡ false)
IsPiece (escaped c) = Unit

-- What stands between two brackets: units, strings, and brackets with what they enclose.
pub data Block : Type 0 where
  end : Block
  unit : ℕ → Block → Block
  quoted : List Piece → Block → Block
  nested : (opening closing : ℕ) → Block → Block → Block

abbrev pub print_block : Block → Text
print_block end = []
print_block (unit c b) = c ∷ print_block b
print_block (quoted ps b) = print_string ps ++ print_block b
print_block (nested o c b b') = o ∷ (print_block b ++ c ∷ print_block b')

-- No quote and no bracket.
abbrev pub is_plain : ℕ → Bool
is_plain c = not (c == b'"' || (is_opening c || is_closing c))

abbrev pub IsBlock : Block → Type 0
IsBlock end = Unit
IsBlock (unit c b) = (is_plain c ≡ true) × IsBlock b
IsBlock (quoted ps b) = Every IsPiece ps × IsBlock b
IsBlock (nested o c b b') = (is_opening o ≡ true) × (is_closing c ≡ true) × IsBlock b × IsBlock b'

pub data Value : Type 0 where
  text : List Piece → Value
  bracketed : (opening closing : ℕ) → Block → Value
  literal : Text → Value

abbrev pub print_value : Value → Text
print_value (text ps) = print_string ps
print_value (bracketed o c b) = o ∷ (print_block b ++ c ∷ [])
print_value (literal t) = t

-- No structural unit and no white space, as in a number, `true`, `false` and `null`.
abbrev pub is_literal : ℕ → Bool
is_literal c = is_plain c && not (ends_literal c || is_space c)

abbrev pub IsValue : Value → Type 0
IsValue (text ps) = Every IsPiece ps
IsValue (bracketed o c b) = (is_opening o ≡ true) × (is_closing c ≡ true) × IsBlock b
IsValue (literal []) = ⊥
IsValue (literal (c ∷ t)) = Every (λ d. is_literal d ≡ true) (c ∷ t)

-- JSON's white space.
abbrev pub is_blank : ℕ → Bool
is_blank c = c == 32 || (c == 9 || (c == 10 || c == 13))

abbrev pub IsBlank : Text → Type 0
IsBlank = Every (λ c. is_blank c ≡ true)

-- `"key" : value`, with the white space around each part.
pub record Member : Type 0 where
  pub before : Text
  pub key : List Piece
  pub between : Text
  pub after : Text
  pub value : Value
  pub trailing : Text

pub record IsMember (m : Member) : Type 0 where
  pub before : IsBlank m.before
  pub key : Every IsPiece m.key
  pub between : IsBlank m.between
  pub after : IsBlank m.after
  pub value : IsValue m.value
  pub trailing : IsBlank m.trailing

-- A member and what follows it.
abbrev pub print_member : Member → Text → Text
print_member m rest =
    m.before
    ++ (print_string m.key
        ++ (m.between ++ b':' ∷ (m.after ++ (print_value m.value ++ (m.trailing ++ rest)))))

abbrev pub print_members : Member → List Member → Text → Text
print_members m [] rest = print_member m (b'}' ∷ rest)
print_members m (m' ∷ ms) rest = print_member m (b',' ∷ print_members m' ms rest)

-- An object with one member at least.
abbrev pub print_object : Member → List Member → Text
print_object m ms = b'{' ∷ print_members m ms []

-- The key's text is `params`, unescaped.
abbrev pub is_params : Member → Bool
is_params m = same_text (print_string m.key) params_key
