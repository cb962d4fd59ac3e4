-- ===== src/Store/Sources/Tests.antt =====
-- A second address.
use agent_mesh_platform.Store.Sources.Seen.{seen_before-record_source}
use agent_mesh_platform.Store.Sources.{AgentSource, record_source, seen_before}
use agent_mesh_platform.Base.{
  String-discrete, select, exists, ◌≡◌, refl, true, false, some, [], ◌∷◌,
}

abbrev home : AgentSource
home = record { identity = "a"; observed = "1.2.3.4"; first_seen = 1; last_seen = 1; requests = 1 }

elsewhere : seen_before (home ∷ []) "a" (some "5.6.7.8") (λ o. o) ≡ false
unfolding seen_before select exists String-discrete
elsewhere = refl

seen_before-record_source_example :
    (seen_before (record_source (home ∷ []) "a" (some "5.6.7.8") 9) "a" (some "5.6.7.8") (λ o. o)
      ≡ true)
    × (seen_before (record_source (home ∷ []) "a" (some "5.6.7.8") 9) "b" (some "1.2.3.4") (λ o. o)
        ≡ seen_before (home ∷ []) "b" (some "1.2.3.4") (λ o. o))
unfolding String-discrete
seen_before-record_source_example =
    seen_before-record_source (home ∷ []) "a" "b" (some "5.6.7.8") (some "1.2.3.4") 9 (λ o. o) refl
