-- ===== src/Hub/RawParams.antt =====
-- packages/hub/src/raw-params.ts: the scanner that cuts the `params` member out of a request's text. A
-- text is the list of its UTF-16 units, and an index is the text from there on; what a scan consumes
-- and what it leaves are given together. A loop takes fuel, which is more than the text is long. The
-- depth, which stray closing brackets can make negative, is the pair of the counts of brackets.
pub mod Fuel
pub mod Grammar
mod Skipping
mod Scanning
mod Member
pub mod First
mod Tests
use agent_mesh_platform.Base.{
  leb, if◌then◌else◌, ◌==◌, string_eq, nat_eq, length, ℕ, zero, suc, ◌+◌, ◌-◌, Bool, true, false,
  ◌&&◌, ◌||◌, Option, none, some, List, [], ◌∷◌, ◌++◌,
}

abbrev pub Text : Type 0
Text = List ℕ

-- `/\s/`.
unfoldable pub is_space : ℕ → Bool
is_space c =
    leb 9 c && leb c 13
    || (c == 32
        || (c == 160
            || (c == 5760
                || (leb 8192 c && leb c 8202
                    || (c == 8232
                        || (c == 8233
                            || (c == 8239 || (c == 8287 || (c == 12288 || c == 65279)))))))))

abbrev pub is_opening : ℕ → Bool
is_opening c = c == b'{' || c == b'['

abbrev pub is_closing : ℕ → Bool
is_closing c = c == b'}' || c == b']'

-- Behind a unit that was consumed.
abbrev pub consume : ℕ → Text × Text → Text × Text
consume c (used, rest) = (c ∷ used, rest)

abbrev pub consumes : Text → Text × Text → Text × Text
consumes s (used, rest) = (s ++ used, rest)

-- `skipString` after the opening quote.
unfoldable pub skip_body : Text → Text × Text
skip_body [] = ([], [])
skip_body (c ∷ []) = (c ∷ [], [])
skip_body (c ∷ d ∷ t) =
    let escaped = consume c (consume d (skip_body t)) in
    let next = consume c (skip_body (d ∷ t)) in
    if c == b'\\' then escaped else if c == b'"' then (c ∷ [], d ∷ t) else next

unfoldable pub skip_string : Text → Text × Text
skip_string [] = ([], [])
skip_string (c ∷ t) = consume c (skip_body t)

-- The loop of `skipValue` over an object or an array. The first unit opens, so the depth is at least 1
-- where one closes. `spent` is the answer where the fuel runs out.
unfoldable pub skip_block : Text × Text → ℕ → ℕ → Text → Text × Text
skip_block spent zero depth t = spent
skip_block spent (suc fuel) depth [] = ([], [])
skip_block spent (suc fuel) depth (c ∷ t) =
    let (s, rest) = skip_string (c ∷ t) in
    let quoted = consumes s (skip_block spent fuel depth rest) in
    let deeper = consume c (skip_block spent fuel (depth + 1) t) in
    let shallower = consume c (skip_block spent fuel (depth - 1) t) in
    let next = consume c (skip_block spent fuel depth t) in
    if c == b'"'
    then quoted
    else if is_opening c
    then deeper
    else if is_closing c
    then (if depth - 1 == 0 then (c ∷ [], t) else shallower)
    else next

-- `",}] \t\n\r".includes(c)`.
unfoldable pub ends_literal : ℕ → Bool
ends_literal c = c == b',' || (is_closing c || (c == 32 || (c == 9 || (c == 10 || c == 13))))

unfoldable pub skip_literal : Text → Text × Text
skip_literal [] = ([], [])
skip_literal (c ∷ t) = if ends_literal c then ([], c ∷ t) else consume c (skip_literal t)

unfoldable pub skip_value : Text → Text × Text
skip_value [] = ([], [])
skip_value (c ∷ t) =
    if c == b'"'
    then skip_string (c ∷ t)
    else if is_opening c
    then skip_block ([], []) (suc (suc (length t))) 0 (c ∷ t)
    else skip_literal (c ∷ t)

unfoldable pub skip_spaces : Text → Text
skip_spaces [] = []
skip_spaces (c ∷ t) = if is_space c then skip_spaces t else c ∷ t

unfoldable pub same_text : Text → Text → Bool
same_text [] [] = true
same_text [] (d ∷ t) = false
same_text (c ∷ s) [] = false
same_text (c ∷ s) (d ∷ t) = c == d && same_text s t

abbrev pub params_key : Text
params_key = b'"' ∷ b'p' ∷ b'a' ∷ b'r' ∷ b'a' ∷ b'm' ∷ b's' ∷ b'"' ∷ []

-- `end > j ? text.slice(j, end) : null`.
abbrev pub non_empty : Text × Text → Option Text
non_empty ([], rest) = none
non_empty (c ∷ used, rest) = some (c ∷ used)

-- What follows the key: none where it is no colon.
unfoldable pub after_key : Text → Option (Option Text)
after_key [] = none
after_key (c ∷ t) = if c == b':' then some (non_empty (skip_value (skip_spaces t))) else none

abbrev pub found : Option (Option Text) → Option Text → Option Text
found none next = next
found (some value) next = value

-- The loop of `rawParams`; `spent` is the answer where the fuel runs out.
unfoldable pub scan : Option Text → ℕ → ℕ → ℕ → Text → Option Text
scan spent zero opened closed t = spent
scan spent (suc fuel) opened closed [] = none
scan spent (suc fuel) opened closed (c ∷ t) =
    let (s, rest) = skip_string (c ∷ t) in
    let quoted = scan spent fuel opened closed rest in
    let deeper = scan spent fuel (opened + 1) closed t in
    let shallower = scan spent fuel opened (closed + 1) t in
    let next = scan spent fuel opened closed t in
    if c == b'"'
    then (if opened == closed + 1 && same_text s params_key
        then found (after_key (skip_spaces rest)) quoted
        else quoted)
    else if is_opening c
    then deeper
    else if is_closing c
    then shallower
    else next

unfoldable pub raw_params : Text → Option Text
raw_params text = scan none (suc (length text)) 0 0 text
