-- ===== src/Gadget/BuildOrder/Groups.antt =====
-- Sorting, joining and marking the groups of a build order (tools/gadget/gendget.go).
use sardis.Common.{
  true, ◌||◌, ◌≡◌, refl, sym, ap, ◌∙◌, List, [], ◌∷◌, ◌++◌, append_assoc, append-nil, String,
  string_comparable, arith, All, all, Bool-cases, inl, inr,
}
use sardis.Common.Text.{str_ltb}
use sardis.Extern.Sets.{Sets, member}
use sardis.Gadget.BuildOrder.{insert_string, sort_strings, add_all}

-- The packages of groups, in order.
abbrev pub concat : List (List String) → List String
concat [] = []
concat (g ∷ gs) = g ++ concat gs

pub concat-push :
    (gs : List (List String)) (g : List String) → concat (gs ++ g ∷ []) ≡ concat gs ++ g
concat-push [] g = append-nil g
concat-push (h ∷ gs) g = ap (λ l. h ++ l) (concat-push gs g) ∙ sym (append_assoc h (concat gs) g)

pub member-append :
    (x : String) (xs ys : List String) → member x (xs ++ ys) ≡ (member x xs || member x ys)
member-append x [] ys = refl
member-append x (y ∷ xs) ys = ground (arith, member-append x xs ys)

pub All-push {κ} :
    (P : String → Type κ) (xs : List String) (x : String) → All P xs → P x → All P (xs ++ x ∷ [])
All-push P [] x _ p = (p, tt)
All-push P (y ∷ ys) x (q, h) p = (q, All-push P ys x h p)

All-insert_string :
    (P : String → Type 0) (x : String) (xs : List String)
    → P x
    → All P xs
    → All P (insert_string x xs)
unfolding insert_string
All-insert_string P x [] p h = (p, tt)
All-insert_string P x (y ∷ ys) p (q, h) = elim (Bool-cases (str_ltb y x)) [
  | inl before ↦ rw before (q, All-insert_string P x ys p h)
  | inr after ↦ rw after (p, (q, h))
]

-- Sorting keeps what holds of each name.
pub All-sort_strings : (P : String → Type 0) (xs : List String) → All P xs → All P (sort_strings xs)
unfolding sort_strings
All-sort_strings P [] h = tt
All-sort_strings P (x ∷ xs) (p, h) =
    All-insert_string P x (sort_strings xs) p (All-sort_strings P xs h)

pub check-add_all :
    (sets : Sets) (x : String) (ns : List String) (s : sets.Set)
    → sets.check x (add_all sets ns s) ≡ (member x ns || sets.check x s)
unfolding add_all
check-add_all sets x [] s = refl
check-add_all sets x (n ∷ ns) s =
    ground (arith, check-add_all sets x ns (sets.add n s).0, sets.check-add n x s)

pub all-All :
    (sets : Sets) (s : sets.Set) (xs ys : List String)
    → ((x : String) → sets.check x s ≡ member x ys)
    → all (λ x. sets.check x s) xs ≡ true
    → All (λ x. member x ys ≡ true) xs
all-All sets s [] ys agree h = tt
all-All sets s (x ∷ xs) ys agree h = ground (arith, agree x, all-All sets s xs ys agree)
