-- ===== src/Hub/Observed.antt =====
-- packages/hub/src/observed.ts: where a request came from. A text is the list of its UTF-16 units; the
-- runtime's `toLowerCase` is an argument, and the regular expressions are written as tests.
pub mod Forged
mod Tests
use agent_mesh_platform.Hub.RawParams.{Text, is_space, skip_spaces, same_text}
use agent_mesh_platform.Base.{
  leb, if◌then◌else◌, ◌==◌, string_eq, nat_eq, length, select, exists, count, get_or, is_some, ℕ,
  Bool, true, not, ◌&&◌, ◌||◌, Option, none, some, List, [], ◌∷◌, ◌++◌, map,
}

-- `split`: the parts between the separators, at least one.
unfoldable pub split_from : ℕ → Text → Text → List Text
split_from separator part [] = part ∷ []
split_from separator part (c ∷ t) =
    let ended = part ∷ split_from separator [] t in
    let next = split_from separator (part ++ c ∷ []) t in if c == separator then ended else next

unfoldable pub split : ℕ → Text → List Text
split separator t = split_from separator [] t

unfoldable pub trim_end : Text → Text
trim_end [] = []
trim_end (c ∷ t) = elim (trim_end t) [ [] ↦ if is_space c then [] else c ∷ [] | d ∷ u ↦ c ∷ d ∷ u ]

abbrev pub trim : Text → Text
trim t = trim_end (skip_spaces t)

unfoldable pub all_digits : Text → Bool
all_digits t = not (exists (λ c. not (leb b'0' c && leb c b'9')) t)

-- `\d{1,3}`.
unfoldable pub is_octet : Text → Bool
is_octet t = leb 1 (length t) && (leb (length t) 3 && all_digits t)

-- The four numbers of a dotted address.
unfoldable pub octets : List Text → Option (Text × Text × Text)
octets (a ∷ b ∷ c ∷ d ∷ []) =
    if is_octet a && (is_octet b && (is_octet c && is_octet d)) then some (a, b, c) else none
octets [] = none
octets (a ∷ []) = none
octets (a ∷ b ∷ []) = none
octets (a ∷ b ∷ c ∷ []) = none
octets (a ∷ b ∷ c ∷ d ∷ e ∷ rest) = none

-- `(?::\d+)?$`.
unfoldable pub is_port : Text → Bool
is_port [] = true
is_port (c ∷ t) = c == b':' && (leb 1 (length t) && all_digits t)

-- The group of `/^\[([^\]]+)\](?::\d+)?$/`, after the opening bracket.
unfoldable pub bracketed : List Text → Option Text
bracketed (inside ∷ after ∷ []) =
    if leb 1 (length inside) && is_port after then some inside else none
bracketed [] = none
bracketed (inside ∷ []) = none
bracketed (inside ∷ after ∷ p ∷ rest) = none

unfoldable pub without_port : Text → Text
without_port s =
    if count (λ c. c == b':') s == 1 && exists (λ c. c == b'.') s
    then elim (split b':' s) [ [] ↦ [] | p ∷ ps ↦ p ]
    else s

-- Brackets, or else the port, are taken off.
unfoldable pub bare : Text → Text
bare [] = []
bare (c ∷ t) =
    if c == b'['
    then get_or (bracketed (split b']' t)) (without_port (c ∷ t))
    else without_port (c ∷ t)

unfoldable pub strip : List (ℕ → Bool) → Text → Option Text
strip [] t = some t
strip (p ∷ ps) [] = none
strip (p ∷ ps) (c ∷ t) = let rest = strip ps t in if p c then rest else none

abbrev is_colon : ℕ → Bool
is_colon c = c == b':'

abbrev is_f : ℕ → Bool
is_f c = c == b'f' || c == b'F'

-- `/^::ffff:(\d{1,3}(?:\.\d{1,3}){3})$/i`.
unfoldable pub unmapped : Text → Text
unmapped s = elim (strip (is_colon ∷ is_colon ∷ is_f ∷ is_f ∷ is_f ∷ is_f ∷ is_colon ∷ []) s) [
  | none ↦ s
  | some v4 ↦ if is_some (octets (split b'.' v4)) then v4 else s
]

-- `t || null`.
abbrev pub or_null : Text → Option Text
or_null [] = none
or_null (c ∷ t) = some (c ∷ t)

unfoldable pub normalize_address : (Text → Text) → Option Text → Option Text
normalize_address lower none = none
normalize_address lower (some raw) = elim (trim raw) [
  | [] ↦ none
  | c ∷ s ↦ or_null (lower (unmapped (bare (c ∷ s))))
]

pub data ObservedSourceMode : Type 0 where
  socket forwarded : ObservedSourceMode

pub record ObservedConfig : Type 0 where
  pub mode : ObservedSourceMode
  pub trusted_proxies : List Text

-- `map` of `normalizeAddress` and the filter of what it gives.
unfoldable pub hops : (Text → Text) → List Text → List Text
hops lower [] = []
hops lower (p ∷ ps) = elim (normalize_address lower (some p)) [
  | none ↦ hops lower ps
  | some a ↦ a ∷ hops lower ps
]

unfoldable pub read_observed_config : (Text → Text) → Option Text → ObservedConfig
read_observed_config lower variable = elim (trim (get_or variable [])) [
  | [] ↦ record { mode = socket; trusted_proxies = [] }
  | c ∷ raw ↦ elim (hops lower (map (λ s. trim s) (split b',' (c ∷ raw)))) [
    | [] ↦ record { mode = socket; trusted_proxies = [] }
    | a ∷ trusted ↦ record { mode = forwarded; trusted_proxies = a ∷ trusted }
  ]
]

unfoldable pub is_trusted : ObservedConfig → Text → Bool
is_trusted config a = exists (λ b. same_text b a) config.trusted_proxies

-- The loop from the right: an entry is asked after those on its right.
unfoldable pub last_untrusted : ObservedConfig → List Text → Option Text
last_untrusted config [] = none
last_untrusted config (hop ∷ chain) = elim (last_untrusted config chain) [
  | some a ↦ some a
  | none ↦ if is_trusted config hop then none else some hop
]

abbrev pub chain_of : (Text → Text) → Option Text → List Text
chain_of lower forwarded_for = hops lower (split b',' (get_or forwarded_for []))

unfoldable pub observed_source :
    (Text → Text) → ObservedConfig → Option Text → Option Text → Option Text
observed_source lower config socket_address forwarded_for = elim config.mode [
  | socket ↦ normalize_address lower socket_address
  | forwarded ↦ elim (normalize_address lower socket_address) [
    | none ↦ none
    | some peer ↦
        if not (is_trusted config peer)
        then some peer
        else last_untrusted config (chain_of lower forwarded_for)
  ]
]

-- What stands before the first `::`.
unfoldable pub head_of : Text → Text
head_of [] = []
head_of (c ∷ []) = c ∷ []
head_of (c ∷ d ∷ t) = let rest = head_of (d ∷ t) in if c == b':' && d == b':' then [] else c ∷ rest

abbrev pub groups_of : Text → List Text
groups_of a = select (λ g. leb 1 (length g)) (split b':' (head_of a))

-- The first three, joined, with the width of the network.
unfoldable pub first_three : List Text → Text
first_three (a ∷ b ∷ c ∷ rest) = a ++ b':' ∷ b ++ b':' ∷ c ++ b':' ∷ b':' ∷ b'/' ∷ b'4' ∷ b'8' ∷ []
first_three [] = []
first_three (a ∷ []) = []
first_three (a ∷ b ∷ []) = []

abbrev zeros : List Text
zeros = (b'0' ∷ []) ∷ (b'0' ∷ []) ∷ (b'0' ∷ []) ∷ []

-- `prefixOf` of an address that is no dotted one.
unfoldable pub prefix_six : Text → Text
prefix_six a =
    let groups = groups_of a in
    if exists (λ c. c == b':') a
    then (if leb 3 (length groups) then first_three groups else first_three (groups ++ zeros))
    else a

unfoldable pub prefix_of : (Text → Text) → Option Text → Option Text
prefix_of lower address = elim (normalize_address lower address) [
  | none ↦ none
  | some a ↦ elim (octets (split b'.' a)) [
    | none ↦ some (prefix_six a)
    | some (x, y, z) ↦ some (x ++ b'.' ∷ y ++ b'.' ∷ z ++ b'.' ∷ b'0' ∷ b'/' ∷ b'2' ∷ b'4' ∷ [])
  ]
]
