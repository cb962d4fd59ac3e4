-- ===== src/Base/RowLaws.antt =====
-- What the row operations of `Base.Rows` do to each other.
use mathlib.Core.Path.{◌≡◌, refl, ap}
use mathlib.Core.Bool.{Bool, true, false, not, ◌||◌, ◌&&◌}
use mathlib.Core.Option.{none, some}
use mathlib.Core.List.{List, [], ◌∷◌, ◌++◌}
use Prim.Native.Nat.{suc, ◌≤◌, ◌+◌}
use native.Mathlib.Omega.{arith}
use agent_mesh_platform.Base.Tests.{ltb, if◌then◌else◌, string_eq, nat_eq}
use agent_mesh_platform.Base.Rows.{
  length, select, first, exists, update, delete, count, Every, IsKeyed,
}

module _ {ℓ} {A : Type ℓ} (p : A → Bool) where
  pub exists-append : (xs ys : List A) → exists p (xs ++ ys) ≡ (exists p xs || exists p ys)
  unfolding exists
  exists-append [] ys = refl
  exists-append (x ∷ xs) ys = ground (arith, exists-append xs ys)

  pub exists-delete_self : (xs : List A) → exists p (delete p xs) ≡ false
  unfolding exists delete
  exists-delete_self [] = refl
  exists-delete_self (x ∷ xs) = ground (arith, exists-delete_self xs)

  pub ltb-count : (xs : List A) → ltb 0 (count p xs) ≡ exists p xs
  unfolding exists count
  ltb-count [] = refl
  ltb-count (x ∷ xs) = ground (arith, ltb-count xs)

  pub delete_absent : (xs : List A) → exists p xs ≡ false → delete p xs ≡ xs
  unfolding exists delete
  delete_absent [] h = refl
  delete_absent (x ∷ xs) h = ground (arith, delete_absent xs)

  -- Deleting the row that was just inserted gives back the table.
  pub delete-append_last :
      (xs : List A) (r : A) → exists p xs ≡ false → p r ≡ true → delete p (xs ++ r ∷ []) ≡ xs
  unfolding exists delete
  delete-append_last [] r h e = ground arith
  delete-append_last (x ∷ xs) r h e = ground (arith, delete-append_last xs r)

  pub first-append :
      (xs ys : List A) → first p (xs ++ ys) ≡ (if exists p xs then first p xs else first p ys)
  unfolding exists first
  first-append [] ys = refl
  first-append (x ∷ xs) ys = ground (arith, first-append xs ys)

  pub first_absent : (xs : List A) → exists p xs ≡ false → first p xs ≡ none
  unfolding exists first
  first_absent [] h = refl
  first_absent (x ∷ xs) h = ground (arith, first_absent xs)

  pub exists_of_first : (xs : List A) (r : A) → first p xs ≡ some r → exists p xs ≡ true
  unfolding exists first
  exists_of_first [] r h = ground arith
  exists_of_first (x ∷ xs) r h = ground (arith, exists_of_first xs r)

  -- The row that a `.get()` returns meets its `WHERE`.
  pub first_holds : (xs : List A) (r : A) → first p xs ≡ some r → p r ≡ true
  unfolding first
  first_holds [] r h = ground arith
  first_holds (x ∷ xs) r h = ground (arith, first_holds xs r)

  -- So does every row of a `SELECT`.
  pub select-Every : (xs : List A) → Every (λ r. p r ≡ true) (select p xs)
  unfolding select
  select-Every [] = tt
  select-Every (x ∷ xs) = ground (arith, select-Every xs)

  pub length-select : (xs : List A) → length (select p xs) ≡ count p xs
  unfolding select count
  length-select [] = refl
  length-select (x ∷ xs) = ground (arith, length-select xs)

  pub count-le : (xs : List A) → count p xs ≤ length xs
  unfolding count
  count-le [] = ground arith
  count-le (x ∷ xs) = ground (arith, count-le xs)

  pub length-update : (f : A → A) (xs : List A) → length (update p f xs) ≡ length xs
  unfolding update
  length-update f [] = refl
  length-update f (x ∷ xs) = ap suc (length-update f xs)

  pub exists_mono :
      (q : A → Bool)
      → ((r : A) → p r ≡ true → q r ≡ true)
      → (xs : List A) → exists p xs ≡ true
      → exists q xs ≡ true
  unfolding exists
  exists_mono q sub [] h = h
  exists_mono q sub (x ∷ xs) h = ground (arith, sub x, exists_mono q sub xs)

  pub exists-delete-false :
      (q : A → Bool) (xs : List A) → exists p xs ≡ false → exists p (delete q xs) ≡ false
  unfolding exists delete
  exists-delete-false q [] h = h
  exists-delete-false q (x ∷ xs) h = ground (arith, exists-delete-false q xs)

  pub count-append : (xs ys : List A) → count p (xs ++ ys) ≡ count p xs + count p ys
  unfolding count
  count-append [] ys = ground arith
  count-append (x ∷ xs) ys = ground (arith, count-append xs ys)

  pub count_absent : (xs : List A) → exists p xs ≡ false → count p xs ≡ 0
  unfolding exists count
  count_absent [] h = refl
  count_absent (x ∷ xs) h = ground (arith, count_absent xs)

  pub count-delete :
      (q : A → Bool) (xs : List A) → count p (delete q xs) ≡ count (λ x. p x && not (q x)) xs
  unfolding count delete
  count-delete q [] = refl
  count-delete q (x ∷ xs) = ground (arith, count-delete q xs)

  pub absent_of_first : (xs : List A) → first p xs ≡ none → exists p xs ≡ false
  unfolding exists first
  absent_of_first [] h = refl
  absent_of_first (x ∷ xs) h = ground (arith, absent_of_first xs)

  pub count-and-le : (q : A → Bool) (xs : List A) → count (λ x. p x && q x) xs ≤ count p xs
  unfolding count
  count-and-le q [] = ground arith
  count-and-le q (x ∷ xs) = ground (arith, count-and-le q xs)

  pub count_single : (x : A) → count p (x ∷ []) ≡ (if p x then 1 else 0)
  unfolding count
  count_single x = refl

  pub count_pos : (xs : List A) → exists p xs ≡ true → 1 ≤ count p xs
  unfolding exists count
  count_pos [] h = ground arith
  count_pos (x ∷ xs) h = ground (arith, count_pos xs)

  pub absent_of_count : (xs : List A) → count p xs ≤ 0 → exists p xs ≡ false
  unfolding exists count
  absent_of_count [] h = refl
  absent_of_count (x ∷ xs) h = ground (arith, absent_of_count xs)

  pub count_ext : (q : A → Bool) → ((x : A) → p x ≡ q x) → (xs : List A) → count p xs ≡ count q xs
  unfolding count
  count_ext q e [] = refl
  count_ext q e (x ∷ xs) = ground (arith, e x, count_ext q e xs)

  pub count-select :
      (q : A → Bool) (xs : List A) → count q (select p xs) ≡ count (λ x. p x && q x) xs
  unfolding count select
  count-select q [] = refl
  count-select q (x ∷ xs) = ground (arith, count-select q xs)

  pub exists-select-false :
      (q : A → Bool) (xs : List A) → exists p xs ≡ false → exists p (select q xs) ≡ false
  unfolding exists select
  exists-select-false q [] h = refl
  exists-select-false q (x ∷ xs) h = ground (arith, exists-select-false q xs)

  pub update_absent : (f : A → A) (xs : List A) → exists p xs ≡ false → update p f xs ≡ xs
  unfolding exists update
  update_absent f [] h = refl
  update_absent f (x ∷ xs) h = ground (arith, update_absent f xs)

pub select-IsKeyed {ℓ} :
    {A : Type ℓ} (same : A → A → Bool) (q : A → Bool) (xs : List A)
    → IsKeyed same xs
    → IsKeyed same (select q xs)
unfolding select
select-IsKeyed same q [] k = tt
select-IsKeyed same q (x ∷ xs) k =
    ground (arith, select-IsKeyed same q xs k.1, exists-select-false (same x) q xs k.0)
