-- ===== src/Util/Dots.antt =====
-- util/dots.go and util/heplers.go. A nil slice and an empty one are the same list here; the
-- program tells them apart nowhere in these functions' callers.
pub mod Names
use sardis.Common.{
  ℕ, Bool, true, false, not, ◌&&◌, Option, none, some, List, [], ◌∷◌, String, Comparable,
  string_comparable, ◌==◌, if◌then◌else◌, keep, all, any, get_elem?,
}
use sardis.Common.Text.{split, join, is_blank}

-- `IsZero`, for a type's zero value.
unfoldable pub is_zero {ℓ} : {A : Type ℓ} ⦃c : Comparable A⦄ → A → Bool
is_zero ⦃c⦄ x = x == c.zero_value

-- `Default`
unfoldable pub default {ℓ} : {A : Type ℓ} ⦃c : Comparable A⦄ → A → A → A
default ⦃c⦄ value default_value = if value == c.zero_value then default_value else value

-- `slices.DeleteFunc`
abbrev pub delete_func {ℓ} : {A : Type ℓ} → (A → Bool) → List A → List A
delete_func p xs = keep (λ x. not (p x)) xs

unfoldable pub nil_when_empty {ℓ} : {A : Type ℓ} → List A → List A
nil_when_empty [] = []
nil_when_empty (x ∷ xs) = x ∷ xs

unfoldable pub make_sparse {ℓ} : {A : Type ℓ} ⦃c : Comparable A⦄ → List A → List A
unfolding is_zero nil_when_empty
make_sparse xs = nil_when_empty (delete_func is_zero xs)

-- `JoinAnd` and `JoinOr` stop at the first predicate that decides the answer.
unfoldable pub join_and {ℓ} : {A : Type ℓ} → List (A → Bool) → A → Bool
join_and pfns x = all (λ pfn. pfn x) pfns

unfoldable pub join_or {ℓ} : {A : Type ℓ} → List (A → Bool) → A → Bool
join_or pfns x = any (λ pfn. pfn x) pfns

-- `IsWhitespace`
unfoldable pub is_whitespace : String → Bool
unfolding is_blank
is_whitespace s = is_blank s

unfoldable pub sparse_string : List String → List String
unfolding is_zero is_whitespace join_and nil_when_empty
sparse_string xs = nil_when_empty (delete_func (join_and (is_zero ∷ is_whitespace ∷ [])) xs)

unfoldable pub dot_join_parts : List String → String
unfolding make_sparse join
dot_join_parts elems = join "." (make_sparse elems)

unfoldable pub dot_join : List String → String
unfolding dot_join_parts
dot_join elems = dot_join_parts elems

unfoldable pub dot_split : String → List String
unfolding split
dot_split s = split b'.' s

-- `Narrow`; an index out of range is a panic.
unfoldable pub narrow {ℓ} : {A : Type ℓ} → List ℕ → List A → Option (List A)
narrow [] source = some []
narrow (i ∷ is) source = elim (get_elem? source i) [
  | none ↦ none
  | some x ↦ elim (narrow is source) [ none ↦ none | some xs ↦ some (x ∷ xs) ]
]
