-- ===== src/Util/Dots/Names.antt =====
-- The laws of dotted names: joining, splitting and dropping empty parts (util/dots.go).
use Prim.Native.Char.{Char}
use sardis.Common.{
  ℕ, not, ◌≡◌, refl, List, [], ◌∷◌, String, string_comparable, ◌==◌, arith, eq_iff, keep, All,
  if◌then◌else◌, Bool-cases, inl, inr,
}
use sardis.Common.Text.{Lacks, split, join, split-join}
use sardis.Util.Dots.{
  is_zero, is_whitespace, join_and, make_sparse, sparse_string, nil_when_empty, dot_join, dot_split,
}

nil_when_empty_lem {ℓ} : {A : Type ℓ} (xs : List A) → nil_when_empty xs ≡ xs
unfolding nil_when_empty
nil_when_empty_lem [] = refl
nil_when_empty_lem (x ∷ xs) = refl

make_sparse-nil : make_sparse {A = String} [] ≡ []
unfolding make_sparse
make_sparse-nil = refl

make_sparse-cons :
    (x : String) (xs : List String)
    → make_sparse (x ∷ xs) ≡ (if x == "" then make_sparse xs else x ∷ make_sparse xs)
unfolding make_sparse is_zero
make_sparse-cons x xs = ground (arith, nil_when_empty_lem (keep (λ (y : String). not (y == "")) xs))

sparse_test : (x : String) → join_and (is_zero ∷ is_whitespace ∷ []) x ≡ is_zero x
unfolding join_and is_zero is_whitespace
sparse_test x = elim (Bool-cases (x == "")) [
  | inl e ↦ rw ((eq_iff x "").0 e) refl
  | inr e ↦ rw e refl
]

sparse_string-cons :
    (x : String) (xs : List String)
    → sparse_string (x ∷ xs) ≡ (if x == "" then sparse_string xs else x ∷ sparse_string xs)
unfolding sparse_string is_zero
sparse_string-cons x xs = ground (
  arith,
  sparse_test x,
  nil_when_empty_lem (keep (λ (y : String). not (join_and (is_zero ∷ is_whitespace ∷ []) y)) xs),
)

-- Dropping the parts that are both zero and blank drops the zero parts: a part of spaces stays.
sparse_string-eq-make_sparse : (xs : List String) → sparse_string xs ≡ make_sparse xs
sparse_string-eq-make_sparse [] = unfold sparse_string make_sparse in refl
sparse_string-eq-make_sparse (x ∷ xs) =
    rw (sparse_string-cons, make_sparse-cons, sparse_string-eq-make_sparse xs)

make_sparse-Lacks :
    (sep : ℕ) (xs : List String) → All (Lacks sep) xs → All (Lacks sep) (make_sparse xs)
make_sparse-Lacks sep [] _ = rw make_sparse-nil tt
make_sparse-Lacks sep (x ∷ xs) (h, hs) =
    rw make_sparse-cons (ground (arith, make_sparse-Lacks sep xs hs))

make_sparse-make_sparse : (xs : List String) → make_sparse (make_sparse xs) ≡ make_sparse xs
make_sparse-make_sparse [] = rw make_sparse-nil make_sparse-nil
make_sparse-make_sparse (x ∷ xs) =
    rw make_sparse-cons
      (ground (arith, make_sparse-cons x (make_sparse xs), make_sparse-make_sparse xs))

sparse_string-split-join :
    (xs : List String)
    → All (Lacks b'.') xs
    → make_sparse xs ≡ xs
    → sparse_string (split b'.' (join "." xs)) ≡ xs
sparse_string-split-join [] _ _ = unfold sparse_string split join in refl
sparse_string-split-join (x ∷ xs) h e =
    let dot : Char = "." in rw (split-join dot x xs h, sparse_string-eq-make_sparse) e

-- Splitting a joined name at its dots gives back the parts that are not empty,
-- where no part holds a dot.
pub sparse_string-dot_split-dot_join :
    (elems : List String)
    → All (Lacks b'.') elems
    → sparse_string (dot_split (dot_join elems)) ≡ make_sparse elems
unfolding dot_split dot_join
sparse_string-dot_split-dot_join elems h =
    sparse_string-split-join (make_sparse elems) (make_sparse-Lacks b'.' elems h)
      (make_sparse-make_sparse elems)
