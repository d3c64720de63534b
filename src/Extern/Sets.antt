-- ===== src/Extern/Sets.antt =====
-- github.com/tychoish/fun/dt: the sets of texts `Set` and `OrderedSet`, as far as the program
-- reads them: membership, size, and whether `Add` met a member.
use sardis.Common.{
  ℕ, suc, Bool, false, ◌||◌, ◌≡◌, refl, List, [], ◌∷◌, String, string_comparable, ◌==◌,
  if◌then◌else◌, Bool-cases, true, inl, inr, arith, eq_iff, ap,
}

-- Membership in a list.
abbrev pub member : String → List String → Bool
member x [] = false
member x (y ∷ ys) = y == x || member x ys

-- How many different texts a list holds.
abbrev pub distinct_count : List String → ℕ
distinct_count [] = 0
distinct_count (x ∷ xs) = if member x xs then distinct_count xs else suc (distinct_count xs)

pub record Sets : Type 1 where
  pub Set : Type 0
  pub empty : Set
  -- `MakeSet(irt.Slice(xs))`
  pub make : List String → Set
  pub check : String → Set → Bool
  -- `Add`: the new set, and whether the text was there before.
  pub add : String → Set → Set × Bool
  pub len : Set → ℕ
  -- What iterating over a set and collecting gives.
  pub to_list : Set → List String
  pub member-to_list : (x : String) (s : Set) → member x (to_list s) ≡ check x s
  pub check-empty : (x : String) → check x empty ≡ false
  pub check-make : (x : String) (xs : List String) → check x (make xs) ≡ member x xs
  pub len-make : (xs : List String) → len (make xs) ≡ distinct_count xs
  pub check-add : (x y : String) (s : Set) → check y (add x s).0 ≡ (x == y || check y s)
  pub len-empty : len empty ≡ 0
  pub len-add :
      (x : String) (s : Set) → len (add x s).0 ≡ (if check x s then len s else suc (len s))
  pub add-had : (x : String) (s : Set) → (add x s).1 ≡ check x s

-- Lists in which a text may stand more than once.
abbrev pub list_sets : Sets
list_sets = record {
  Set = List String;
  empty = [];
  make = λ xs. xs;
  check = member;
  add = λ x s. (x ∷ s, member x s);
  len = distinct_count;
  to_list = λ s. s;
  member-to_list = λ x s. refl;
  check-empty = λ x. refl;
  check-make = λ x xs. refl;
  len-make = λ xs. refl;
  check-add = λ x y s. refl;
  len-empty = refl;
  len-add = λ x s. refl;
  add-had = λ x s. refl;
}

-- `irt.Unique` on a sequence of texts: the first of each, where the second list holds those that were
-- seen.
unique_from : List String → List String → List String
unique_from [] seen = []
unique_from (x ∷ xs) seen =
    let later = unique_from xs (if member x seen then seen else x ∷ seen) in
    if member x seen then later else x ∷ later

unfoldable pub unique : List String → List String
unfolding unique_from
unique xs = unique_from xs []

member-unique_from :
    (x : String) (xs seen : List String)
    → (member x seen || member x (unique_from xs seen)) ≡ (member x seen || member x xs)
unfolding unique_from
member-unique_from x [] seen = refl
member-unique_from x (y ∷ ys) seen = elim (Bool-cases (member y seen)) [
  | inl had ↦
      let same : (y == x) ≡ true → member y seen ≡ member x seen =
        λ e. ap (λ t. member t seen) ((eq_iff y x).0 e) in
      rw had (elim (Bool-cases (y == x)) [
        | inl e ↦ let there = same e in ground (arith, member-unique_from x ys seen)
        | inr e ↦ ground (arith, member-unique_from x ys seen)
      ])
  | inr new ↦ rw new (ground (arith, member-unique_from x ys (y ∷ seen)))
]

-- A text is in the sequence before and after.
pub member-unique : (x : String) (xs : List String) → member x (unique xs) ≡ member x xs
unfolding unique
member-unique x xs = member-unique_from x xs []
