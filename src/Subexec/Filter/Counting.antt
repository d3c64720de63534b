-- ===== src/Subexec/Filter/Counting.antt =====
-- Counting the names of a list: what the size checks of `FilterCommands` decide.
use sardis.Common.{
  suc, ◌≤◌, Bool, true, false, ◌≡◌, ◌≢◌, refl, ◌↔◌, List, [], ◌∷◌, String, string_comparable, ◌==◌,
  arith, eq_iff, eq_refl, length, keep, All, Bool-cases, inl, inr,
}
use sardis.Extern.Sets.{member, distinct_count}

-- No text stands twice in the list.
abbrev pub AreDistinct : List String → Type 0
AreDistinct [] = Unit
AreDistinct (x ∷ xs) = (member x xs ≡ false) × AreDistinct xs

distinct_count-le : (xs : List String) → distinct_count xs ≤ length xs
distinct_count-le [] = omega arith
distinct_count-le (x ∷ xs) = ground (arith, distinct_count-le xs)

pub distinct_count_iff : (xs : List String) → (distinct_count xs ≡ length xs) ↔ AreDistinct xs
distinct_count_iff [] = (λ _. tt, λ _. refl)
distinct_count_iff (x ∷ xs) = ground (arith, distinct_count_iff xs, distinct_count-le xs)

keep-le : (p : String → Bool) (xs : List String) → length (keep p xs) ≤ length xs
keep-le p [] = omega arith
keep-le p (x ∷ xs) = ground (arith, keep-le p xs)

-- As many are kept as there are exactly if all pass.
pub keep-all_iff :
    (p : String → Bool) (xs : List String)
    → (length (keep p xs) ≡ length xs) ↔ All (λ x. p x ≡ true) xs
keep-all_iff p [] = (λ _. tt, λ _. refl)
keep-all_iff p (x ∷ xs) = ground (arith, keep-all_iff p xs, keep-le p xs)

-- Tests that agree on the members keep the same.
pub keep-congr :
    (p q : String → Bool) (xs : List String)
    → ((x : String) → member x xs ≡ true → p x ≡ q x)
    → keep p xs ≡ keep q xs
keep-congr p q [] same = refl
keep-congr p q (x ∷ xs) same =
    ground (arith, same x, eq_refl x, keep-congr p q xs (λ y m. same y (ground arith)))

-- If one name passes the first test only, and the tests agree on the others, a list that holds
-- the name once keeps one more by the first.
pub keep-one_more :
    (n : String) (p q : String → Bool) (xs : List String)
    → AreDistinct xs
    → member n xs ≡ true
    → p n ≡ true
    → q n ≡ false
    → ((x : String) → n ≢ x → p x ≡ q x)
    → length (keep p xs) ≡ suc (length (keep q xs))
keep-one_more n p q [] d m pn qn same = ground arith
keep-one_more n p q (x ∷ xs) (fresh, d) m pn qn same = elim (Bool-cases (x == n)) [
  | inl here ↦
      let e = (eq_iff x n).0 here in
      let rest = keep-congr p q xs (λ y found. same y (λ ny. cc)) in ground (arith, rest)
  | inr later ↦
      let alike = same x (λ e. ground (arith, eq_iff x n)) in
      ground (arith, alike, keep-one_more n p q xs d (ground arith) pn qn same)
]
