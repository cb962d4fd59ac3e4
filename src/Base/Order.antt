-- ===== src/Base/Order.antt =====
-- `ORDER BY`: a stable sort of rows by a comparison, and the order of texts by code points, which is
-- the byte order of their UTF-8 that SQLite sorts by.
use Prim.Native.String.{String, compare}
use mathlib.Core.Path.{◌≡◌, refl, ◌∙◌}
use mathlib.Core.Bool.{Bool, false, ◌||◌}
use mathlib.Core.List.{List, [], ◌∷◌}
use native.Mathlib.Omega.{arith}
use text.Mathlib.Text.{is_le}
use agent_mesh_platform.Base.Tests.{if◌then◌else◌, string_eq, nat_eq}
use agent_mesh_platform.Base.Rows.{length, exists, count, IsKeyed}

abbrev pub text_le : String → String → Bool
text_le a b = is_le (compare a b)

module _ {ℓ} {A : Type ℓ} (le : A → A → Bool) where
  -- Before the first row that is strictly greater, so that equal rows keep their order.
  insert_row : A → List A → List A
  insert_row r [] = r ∷ []
  insert_row r (x ∷ xs) = if le r x then r ∷ x ∷ xs else x ∷ insert_row r xs

  unfoldable pub order_by : List A → List A
  unfolding insert_row
  order_by [] = []
  order_by (x ∷ xs) = insert_row x (order_by xs)

  exists-insert_row :
      (p : A → Bool) (r : A) (xs : List A) → exists p (insert_row r xs) ≡ (p r || exists p xs)
  unfolding exists insert_row
  exists-insert_row p r [] = refl
  exists-insert_row p r (x ∷ xs) = ground (arith, exists-insert_row p r xs)

  pub exists-order_by : (p : A → Bool) (xs : List A) → exists p (order_by xs) ≡ exists p xs
  unfolding exists order_by
  exists-order_by p [] = refl
  exists-order_by p (x ∷ xs) =
      ground (arith, exists-insert_row p x (order_by xs), exists-order_by p xs)

  length-insert_row : (r : A) (xs : List A) → length (insert_row r xs) ≡ length (r ∷ xs)
  unfolding insert_row
  length-insert_row r [] = refl
  length-insert_row r (x ∷ xs) = ground (arith, length-insert_row r xs)

  pub length-order_by : (xs : List A) → length (order_by xs) ≡ length xs
  unfolding order_by
  length-order_by [] = refl
  length-order_by (x ∷ xs) = ground (arith, length-insert_row x (order_by xs), length-order_by xs)

  count-insert_row :
      (p : A → Bool) (r : A) (xs : List A) → count p (insert_row r xs) ≡ count p (r ∷ xs)
  unfolding count insert_row
  count-insert_row p r [] = refl
  count-insert_row p r (x ∷ xs) = ground (arith, count-insert_row p r xs)

  -- A sort neither adds nor loses rows.
  pub count-order_by : (p : A → Bool) (xs : List A) → count p (order_by xs) ≡ count p xs
  unfolding order_by count
  count-order_by p [] = refl
  count-order_by p (x ∷ xs) =
      ground (arith, count-insert_row p x (order_by xs), count-order_by p xs)

  insert_row-IsKeyed :
      (same : A → A → Bool)
      → ((a b : A) → same a b ≡ same b a)
      → (r : A) (xs : List A) → exists (same r) xs ≡ false
      → IsKeyed same xs
      → IsKeyed same (insert_row r xs)
  unfolding exists insert_row
  insert_row-IsKeyed same sym_same r [] h k = (refl, tt)
  insert_row-IsKeyed same sym_same r (x ∷ xs) h k =
      ground (
        arith,
        insert_row-IsKeyed same sym_same r xs,
        exists-insert_row (same x) r xs,
        sym_same x r,
      )

  -- A sort keeps keys unique.
  pub order_by-IsKeyed :
      (same : A → A → Bool)
      → ((a b : A) → same a b ≡ same b a)
      → (xs : List A) → IsKeyed same xs
      → IsKeyed same (order_by xs)
  unfolding order_by
  order_by-IsKeyed same sym_same [] k = tt
  order_by-IsKeyed same sym_same (x ∷ xs) k =
      insert_row-IsKeyed same sym_same x (order_by xs) (exists-order_by (same x) xs ∙ k.0)
        (order_by-IsKeyed same sym_same xs k.1)
