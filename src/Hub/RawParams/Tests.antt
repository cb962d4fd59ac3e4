-- ===== src/Hub/RawParams/Tests.antt =====
-- A request whose method is called `params`, and one that says `params` twice.
use agent_mesh_platform.Hub.RawParams.First.{value_of, raw_params_lem}
use agent_mesh_platform.Hub.RawParams.Fuel.{raw_params_fuel}
use agent_mesh_platform.Hub.RawParams.Grammar.{
  Piece, unescaped, escaped, end, unit, quoted, nested, Value, text, bracketed, literal,
  print_value, Member, IsMember, print_object, is_params,
}
use agent_mesh_platform.Hub.RawParams.{
  is_space, skip_body, skip_string, skip_block, ends_literal, skip_value, skip_spaces, same_text,
  after_key, scan, raw_params,
}
use agent_mesh_platform.Base.{length, first, suc, ◌≡◌, refl, some, List, [], ◌∷◌, arith, ℕ_discrete}

abbrev word : List Piece
word =
    unescaped b'p'
    ∷ unescaped b'a'
    ∷ unescaped b'r'
    ∷ unescaped b'a'
    ∷ unescaped b'm'
    ∷ unescaped b's'
    ∷ []

abbrev member : List Piece → Value → Member
member key value = record {
  before = [];
  key = key;
  between = [];
  after = 32 ∷ [];
  value = value;
  trailing = [];
}

-- `"m": "params"`.
abbrev method : Member
method = member (unescaped b'm' ∷ []) (text word)

-- `"params": {"\"":[]}`.
abbrev signed : Member
signed =
    member word
      (bracketed b'{' b'}' (quoted (escaped b'"' ∷ []) (unit b':' (nested b'[' b']' end end))))

-- `"params": 7`.
abbrev added : Member
added = member word (literal (b'7' ∷ []))

added_later :
    raw_params (print_object method (signed ∷ added ∷ [])) ≡ some (print_value signed.value)
unfolding raw_params scan skip_string skip_body skip_spaces is_space same_text after_key skip_value
    skip_block ℕ_discrete
added_later = refl

method-IsMember : IsMember method
unfolding ℕ_discrete is_space ends_literal
method-IsMember = ground arith

signed-IsMember : IsMember signed
unfolding ℕ_discrete is_space ends_literal
signed-IsMember = ground arith

added-IsMember : IsMember added
unfolding ℕ_discrete is_space ends_literal
added-IsMember = ground arith

raw_params_lem_example :
    raw_params (print_object method (signed ∷ added ∷ []))
    ≡ value_of (first is_params (method ∷ signed ∷ added ∷ []))
raw_params_lem_example =
    raw_params_lem method (signed ∷ added ∷ []) method-IsMember
      (signed-IsMember, (added-IsMember, tt))

raw_params_fuel_example :
    let request = print_object method (signed ∷ []) in
    (scan (some (b'?' ∷ [])) 100 0 0 request ≡ raw_params request)
    × (skip_block (b'?' ∷ [], b'?' ∷ []) 100 0 request
        ≡ skip_block ([], []) (suc (length request)) 0 request)
raw_params_fuel_example =
    raw_params_fuel (print_object method (signed ∷ [])) 100 0 (some (b'?' ∷ []))
      (b'?' ∷ [], b'?' ∷ []) (omega arith)
