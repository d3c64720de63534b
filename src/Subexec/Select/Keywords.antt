-- ===== src/Subexec/Select/Keywords.antt =====
-- The stage of a single group (subexec/list.go).
use sardis.Common.{
  ℕ, zero, suc, Option, none, some, ◌≡◌, refl, List, [], ◌∷◌, map, String, arith, get_elem?, length,
  length-map,
}
use sardis.Util.Dots.{dot_join}
use sardis.Subexec.Command.{Command, name_prime}
use sardis.Subexec.Group.{Group}
use sardis.Subexec.Select.{select_group, selection_at, resolve}

abbrev prefixed_names : String → Option String → Option (List String)
prefixed_names selection none = none
prefixed_names selection (some name) = some (dot_join (selection ∷ name ∷ []) ∷ [])

abbrev map_option {ℓ κ} : {A : Type ℓ} {B : Type κ} → (A → B) → Option A → Option B
map_option f none = none
map_option f (some a) = some (f a)

get_elem?-map {ℓ κ} :
    {A : Type ℓ} {B : Type κ} (f : A → B) (xs : List A) (v : ℕ)
    → get_elem? (map f xs) v ≡ map_option f (get_elem? xs v)
get_elem?-map f [] v = refl
get_elem?-map f (x ∷ xs) zero = refl
get_elem?-map f (x ∷ xs) (suc v) = get_elem?-map f xs v

no_elem {ℓ} : {A : Type ℓ} (xs : List A) (v : ℕ) → length xs ≡ 0 → get_elem? xs v ≡ none
no_elem [] v h = refl
no_elem (x ∷ xs) v h = absurd (omega arith)

-- In the stage of a group an index resolves to the selection at that index, behind the group's
-- name, and an index out of range is a panic for both.
resolve-select_group :
    (selection : String) (gr : Group) (v : ℕ)
    → resolve (v ∷ []) (select_group selection gr)
      ≡ prefixed_names selection (selection_at v (select_group selection gr))
unfolding resolve selection_at select_group
resolve-select_group selection gr v =
    let prefixed = λ (c : Command). dot_join (selection ∷ name_prime c ∷ []) in
    ground (
      arith,
      length-map prefixed gr.commands,
      no_elem gr.commands v,
      get_elem?-map prefixed gr.commands v,
      get_elem?-map name_prime gr.commands v,
    )
