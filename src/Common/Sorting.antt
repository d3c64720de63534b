-- ===== src/Common/Sorting.antt =====
-- Stable sorting by insertion, and counting the elements that pass a test.
use Prim.Native.Nat.{ℕ, suc, ◌+◌}
use mathlib.Core.Path.{◌≡◌, refl}
use mathlib.Core.Bool.{Bool}
use mathlib.Core.List.{List, [], ◌∷◌, ◌++◌}
use native.Mathlib.Omega.{arith}
use sardis.Common.Tests.{if◌then◌else◌}

-- `slices.SortStableFunc`, for a test that says which of two elements comes first.
unfoldable pub insert_by {ℓ} : {A : Type ℓ} → (A → A → Bool) → A → List A → List A
insert_by less x [] = x ∷ []
insert_by less x (y ∷ ys) =
    let later = insert_by less x ys in if less y x then y ∷ later else x ∷ y ∷ ys

unfoldable pub sort_by {ℓ} : {A : Type ℓ} → (A → A → Bool) → List A → List A
unfolding insert_by
sort_by less [] = []
sort_by less (x ∷ xs) = insert_by less x (sort_by less xs)

abbrev pub count {ℓ} : {A : Type ℓ} → (A → Bool) → List A → ℕ
count p [] = 0
count p (x ∷ xs) = let rest = count p xs in if p x then suc rest else rest

pub count-append {ℓ} :
    {A : Type ℓ} → (p : A → Bool) (xs ys : List A) → count p (xs ++ ys) ≡ count p xs + count p ys
count-append p [] ys = omega arith
count-append p (x ∷ xs) ys = ground (arith, count-append p xs ys)

count-insert_by {ℓ} :
    {A : Type ℓ}
    → (p : A → Bool) (less : A → A → Bool) (x : A) (ys : List A)
    → count p (insert_by less x ys) ≡ count p (x ∷ ys)
unfolding insert_by
count-insert_by p less x [] = refl
count-insert_by p less x (y ∷ ys) = ground (arith, count-insert_by p less x ys)

pub count-sort_by {ℓ} :
    {A : Type ℓ}
    → (p : A → Bool) (less : A → A → Bool) (xs : List A) → count p (sort_by less xs) ≡ count p xs
unfolding sort_by
count-sort_by p less [] = refl
count-sort_by p less (x ∷ xs) =
    ground (arith, count-insert_by p less x (sort_by less xs), count-sort_by p less xs)
