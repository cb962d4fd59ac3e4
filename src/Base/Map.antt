-- ===== src/Base/Map.antt =====
-- The runtime's `Map`: an association list in insertion order, with one entry for a key.
use agent_mesh_platform.Base.Tests.{if◌then◌else◌, Eq, ◌==◌, string_eq, nat_eq}
use mathlib.Core.Path.{◌≡◌, refl}
use mathlib.Core.Bool.{Bool}
use mathlib.Core.Option.{Option, none, some}
use mathlib.Core.List.{List, [], ◌∷◌}
use native.Mathlib.Omega.{arith}

module _ {ℓ κ} {K : Type ℓ} {V : Type κ} ⦃e : Eq K⦄ where
  -- `m.get(k)`.
  unfoldable pub get : K → List (K × V) → Option V
  get k [] = none
  get k ((j, v) ∷ m) = if j == k then some v else get k m

  -- `m.set(k, v)`: in place, or at the end.
  unfoldable pub put : K → V → List (K × V) → List (K × V)
  put k v [] = (k, v) ∷ []
  put k v ((j, w) ∷ m) = if j == k then (k, v) ∷ m else (j, w) ∷ put k v m

  -- `m.delete(k)`.
  unfoldable pub drop : K → List (K × V) → List (K × V)
  drop k [] = []
  drop k ((j, w) ∷ m) = if j == k then drop k m else (j, w) ∷ drop k m

  -- A loop that deletes the entries which fail a test.
  unfoldable pub keep : (K → V → Bool) → List (K × V) → List (K × V)
  keep p [] = []
  keep p ((j, w) ∷ m) = if p j w then (j, w) ∷ keep p m else keep p m

  -- A key stands once.
  abbrev pub IsMap : List (K × V) → Type κ
  IsMap [] = Unit
  IsMap ((j, w) ∷ m) = (get j m ≡ none) × IsMap m

  pub get-put :
      (k j : K) (v : V) (m : List (K × V))
      → get j (put k v m) ≡ (if k == j then some v else get j m)
  unfolding get put
  get-put k j v [] = refl
  get-put k j v ((i, w) ∷ m) = ground (arith, get-put k j v m)

  pub get-drop :
      (k j : K) (m : List (K × V)) → get j (drop k m) ≡ (if k == j then none else get j m)
  unfolding get drop
  get-drop k j [] = ground arith
  get-drop k j ((i, w) ∷ m) = ground (arith, get-drop k j m)

  abbrev pub kept : (K → V → Bool) → K → Option V → Option V
  kept p k none = none
  kept p k (some v) = if p k v then some v else none

  get-keep-none :
      (p : K → V → Bool) (j : K) (m : List (K × V)) → get j m ≡ none → get j (keep p m) ≡ none
  unfolding get keep
  get-keep-none p j [] h = refl
  get-keep-none p j ((i, w) ∷ m) h = ground (arith, get-keep-none p j m)

  pub get-keep :
      (p : K → V → Bool) (j : K) (m : List (K × V))
      → IsMap m
      → get j (keep p m) ≡ kept p j (get j m)
  unfolding get keep
  get-keep p j [] h = refl
  get-keep p j ((i, w) ∷ m) h = ground (arith, get-keep p j m h.1, get-keep-none p i m h.0)

  get-put-none :
      (k j : K) (v : V) (m : List (K × V)) → get j m ≡ none → (k ≡ j → ⊥) → get j (put k v m) ≡ none
  unfolding get put
  get-put-none k j v m h n = ground (arith, get-put k j v m)

  pub put-IsMap : (k : K) (v : V) (m : List (K × V)) → IsMap m → IsMap (put k v m)
  unfolding get put
  put-IsMap k v [] h = (refl, tt)
  put-IsMap k v ((i, w) ∷ m) h = ground (arith, put-IsMap k v m h.1, get-put k i v m)

  pub drop-IsMap : (k : K) (m : List (K × V)) → IsMap m → IsMap (drop k m)
  unfolding get drop
  drop-IsMap k [] h = tt
  drop-IsMap k ((i, w) ∷ m) h = ground (arith, drop-IsMap k m h.1, get-drop k i m)

  pub keep-IsMap : (p : K → V → Bool) (m : List (K × V)) → IsMap m → IsMap (keep p m)
  unfolding get keep
  keep-IsMap p [] h = tt
  keep-IsMap p ((i, w) ∷ m) h = ground (arith, keep-IsMap p m h.1, get-keep-none p i m h.0)
