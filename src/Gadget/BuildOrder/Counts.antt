-- ===== src/Gadget/BuildOrder/Counts.antt =====
-- How often a name stands in a list, across the operations of the search for a build order
-- (tools/gadget/gendget.go).
use sardis.Common.{
  ℕ, suc, ◌+◌, ◌≤◌, true, false, ◌≡◌, refl, ap, ◌∙◌, List, [], ◌∷◌, ◌++◌, String, string_comparable,
  ◌==◌, arith, eq_iff, eq_refl, if◌then◌else◌, length,
}
use sardis.Extern.Sets.{Sets, member}
use sardis.Gadget.BuildOrder.{insert_string, sort_strings, add_all}

abbrev pub occurs : String → List String → ℕ
occurs x [] = 0
occurs x (y ∷ ys) = if y == x then suc (occurs x ys) else occurs x ys

pub occurs-append :
    (x : String) (xs ys : List String) → occurs x (xs ++ ys) ≡ occurs x xs + occurs x ys
occurs-append x [] ys = omega arith
occurs-append x (y ∷ xs) ys = ground (arith, occurs-append x xs ys)

pub member-occurs : (x : String) (xs : List String) → member x xs ≡ true → 1 ≤ occurs x xs
member-occurs x [] h = absurd (ground arith)
member-occurs x (y ∷ xs) h = ground (arith, member-occurs x xs)

absent-occurs : (x : String) (xs : List String) → member x xs ≡ false → occurs x xs ≡ 0
absent-occurs x [] h = refl
absent-occurs x (y ∷ xs) h = ground (arith, absent-occurs x xs)

pub occurs-length : (x : String) (xs : List String) → occurs x xs ≤ length xs
occurs-length x [] = omega arith
occurs-length x (y ∷ xs) = ground (arith, occurs-length x xs)

occurs-insert_string :
    (x y : String) (ys : List String) → occurs x (insert_string y ys) ≡ occurs x (y ∷ ys)
unfolding insert_string
occurs-insert_string x y [] = refl
occurs-insert_string x y (z ∷ ys) = ground (arith, occurs-insert_string x y ys)

pub occurs-sort_strings : (x : String) (xs : List String) → occurs x (sort_strings xs) ≡ occurs x xs
unfolding sort_strings
occurs-sort_strings x [] = refl
occurs-sort_strings x (y ∷ xs) =
    occurs-insert_string x y (sort_strings xs) ∙ ground (arith, occurs-sort_strings x xs)

length-insert_string :
    (y : String) (ys : List String) → length (insert_string y ys) ≡ suc (length ys)
unfolding insert_string
length-insert_string y [] = refl
length-insert_string y (z ∷ ys) = ground (arith, length-insert_string y ys)

pub length-sort_strings : (xs : List String) → length (sort_strings xs) ≡ length xs
unfolding sort_strings
length-sort_strings [] = refl
length-sort_strings (y ∷ xs) =
    length-insert_string y (sort_strings xs) ∙ ap suc (length-sort_strings xs)

-- Adding new and different names makes the set larger by their number.
pub len-add_all :
    (sets : Sets) (ns : List String) (s : sets.Set)
    → ((x : String) → occurs x ns ≤ 1)
    → ((x : String) → 1 ≤ occurs x ns → sets.check x s ≡ false)
    → sets.len (add_all sets ns s) ≡ sets.len s + length ns
unfolding add_all
len-add_all sets [] s once new = omega arith
len-add_all sets (n ∷ ns) s once new =
    let s' = (sets.add n s).0 in
    let fresh = new n (ground (arith, eq_refl n)) in
    let rest =
      len-add_all sets ns s' (λ x. ground (arith, once x))
        (λ x there. ground (arith, eq_iff n x, once x, new x, sets.check-add n x s)) in
    ground (arith, rest, sets.len-add n s, fresh)
