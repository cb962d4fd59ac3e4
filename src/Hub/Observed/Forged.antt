-- ===== src/Hub/Observed/Forged.antt =====
-- What a client writes into the header: the left of the chain, which the walk from the right reads only
-- past trusted entries.
use agent_mesh_platform.Hub.Observed.{
  split_from, split, normalize_address, forwarded, ObservedConfig, hops, is_trusted, last_untrusted,
  chain_of, observed_source,
}
use agent_mesh_platform.Hub.RawParams.{Text}
use agent_mesh_platform.Base.{
  Option-cases, ℕ, ◌≡◌, refl, ap, ◌∙◌, inl, inr, false, Option, some, List, [], ◌∷◌, ◌++◌, arith,
}

split_from-append :
    (sep : ℕ) (part s t : Text)
    → split_from sep part (s ++ sep ∷ t) ≡ split_from sep part s ++ split_from sep [] t
unfolding split_from
split_from-append sep part [] t = ground arith
split_from-append sep part (c ∷ s) t =
    ground (arith, split_from-append sep [] s t, split_from-append sep (part ++ c ∷ []) s t)

hops-append :
    (lower : Text → Text) (ps qs : List Text)
    → hops lower (ps ++ qs) ≡ hops lower ps ++ hops lower qs
unfolding hops
hops-append lower [] qs = refl
hops-append lower (p ∷ ps) qs = ground (arith, hops-append lower ps qs)

last_untrusted-append :
    (config : ObservedConfig) (xs ys : List Text) (a : Text)
    → last_untrusted config ys ≡ some a
    → last_untrusted config (xs ++ ys) ≡ some a
unfolding last_untrusted
last_untrusted-append config [] ys a h = h
last_untrusted-append config (x ∷ xs) ys a h = rw (last_untrusted-append config xs ys a h) refl

last_untrusted_lem :
    (config : ObservedConfig) (xs : List Text) (a : Text)
    → last_untrusted config xs ≡ some a
    → is_trusted config a ≡ false
unfolding last_untrusted
last_untrusted_lem config [] a h = ground arith
last_untrusted_lem config (x ∷ xs) a h = elim (Option-cases (last_untrusted config xs)) [
  | inl e ↦ ground (arith, e, h)
  | inr (b, e) ↦ ground (arith, last_untrusted_lem config xs b e, e, h)
]

chain_of-forged :
    (lower : Text → Text) (forged header : Text)
    → chain_of lower (some (forged ++ b',' ∷ header))
      ≡ hops lower (split b',' forged) ++ chain_of lower (some header)
unfolding split
chain_of-forged lower forged header =
    ap (hops lower) (split_from-append b',' [] forged header)
    ∙ hops-append lower (split_from b',' [] forged) (split_from b',' [] header)

-- Whatever a client writes in front of the header that the proxies extend, of whatever form, the
-- observed address is the one that the proxies' part alone gives, if that gives one; and behind proxies
-- this is an address that is no trusted proxy.
pub observed_source-forged :
    (lower : Text → Text) (config : ObservedConfig) (socket_address : Option Text)
    (forged header a : Text)
    → observed_source lower config socket_address (some header) ≡ some a
    → (observed_source lower config socket_address (some (forged ++ b',' ∷ header)) ≡ some a)
      × (config.mode ≡ forwarded → is_trusted config a ≡ false)
unfolding observed_source
observed_source-forged lower config socket_address forged header a h =
    elim (Option-cases (normalize_address lower socket_address)) [
      | inl e ↦ ground (arith, e, h)
      | inr (peer, e) ↦ ground (
        arith,
        e,
        h,
        chain_of-forged lower forged header,
        last_untrusted-append config (hops lower (split b',' forged)) (chain_of lower (some header))
            a,
        last_untrusted_lem config (chain_of lower (some header)) a,
      )
    ]
