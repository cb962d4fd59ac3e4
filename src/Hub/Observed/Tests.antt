-- ===== src/Hub/Observed/Tests.antt =====
-- A hub behind the proxy 10.0.0.1, and a client at 9.9.9.9 that writes an address of its own choice.
use agent_mesh_platform.Hub.Observed.Forged.{observed_source-forged}
use agent_mesh_platform.Hub.Observed.{
  split_from, split, trim_end, all_digits, is_octet, octets, is_port, bracketed, without_port, bare,
  strip, unmapped, normalize_address, socket, forwarded, ObservedConfig, hops, read_observed_config,
  is_trusted, last_untrusted, observed_source, head_of, first_three, prefix_six, prefix_of,
}
use agent_mesh_platform.Hub.RawParams.{Text, is_space, skip_spaces, same_text}
use agent_mesh_platform.Base.{
  string_eq, nat_eq, select, exists, count, ℕ, ◌≡◌, refl, false, none, some, [], ◌∷◌, ◌++◌,
  ℕ_discrete,
}

abbrev dotted : ℕ → Text
dotted c = c ∷ b'.' ∷ c ∷ b'.' ∷ c ∷ b'.' ∷ c ∷ []

abbrev proxy : Text
proxy = b'1' ∷ b'0' ∷ b'.' ∷ b'0' ∷ b'.' ∷ b'0' ∷ b'.' ∷ b'1' ∷ []

abbrev mapped_prefix : Text
mapped_prefix = b':' ∷ b':' ∷ b'f' ∷ b'F' ∷ b'f' ∷ b'f' ∷ b':' ∷ []

abbrev config : ObservedConfig
config = record { mode = forwarded; trusted_proxies = proxy ∷ [] }

abbrev same : Text → Text
same t = t

-- The variable, with a space and a spelling in IPv6.
read_config : read_observed_config same (some (32 ∷ mapped_prefix ++ proxy)) ≡ config
unfolding read_observed_config hops normalize_address trim_end skip_spaces is_space bare
    without_port bracketed unmapped strip octets is_octet all_digits split split_from count exists
    ℕ_discrete
read_config = refl

read_nothing :
    read_observed_config same (some (32 ∷ [])) ≡ record { mode = socket; trusted_proxies = [] }
unfolding read_observed_config trim_end skip_spaces is_space ℕ_discrete
read_nothing = refl

from_client : observed_source same config (some proxy) (some (dotted b'9')) ≡ some (dotted b'9')
unfolding observed_source last_untrusted is_trusted same_text hops normalize_address trim_end
    skip_spaces is_space bare without_port bracketed unmapped strip octets is_octet all_digits split
    split_from count exists ℕ_discrete
from_client = refl

only_proxies : observed_source same config (some proxy) (some proxy) ≡ none
unfolding observed_source last_untrusted is_trusted same_text hops normalize_address trim_end
    skip_spaces is_space bare without_port bracketed unmapped strip octets is_octet all_digits split
    split_from count exists ℕ_discrete
only_proxies = refl

-- `[a:b::1]:443`.
network_of_six :
    prefix_of same (
      some (b'[' ∷ b'a' ∷ b':' ∷ b'b' ∷ b':' ∷ b':' ∷ b'1' ∷ b']' ∷ b':' ∷ b'4' ∷ b'4' ∷ b'3' ∷ []))
    ≡ some (b'a' ∷ b':' ∷ b'b' ∷ b':' ∷ b'0' ∷ b':' ∷ b':' ∷ b'/' ∷ b'4' ∷ b'8' ∷ [])
unfolding prefix_of prefix_six first_three head_of select normalize_address trim_end skip_spaces
    is_space bare without_port bracketed is_port unmapped strip octets is_octet all_digits split
    split_from count exists ℕ_discrete
network_of_six = refl

observed_source-forged_example :
    (observed_source same config (some proxy) (some (dotted b'6' ++ b',' ∷ dotted b'9'))
      ≡ some (dotted b'9'))
    × (forwarded ≡ forwarded → is_trusted config (dotted b'9') ≡ false)
observed_source-forged_example =
    observed_source-forged same config (some proxy) (dotted b'6') (dotted b'9') (dotted b'9')
      from_client
