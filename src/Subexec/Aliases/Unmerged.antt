-- ===== src/Subexec/Aliases/Unmerged.antt =====
-- What resolving makes of groups of which no two have one name (subexec/subexec.go).
use sardis.Common.{
  ℕ, false, ◌≡◌, List, [], ◌∷◌, ◌++◌, map, String, string_comparable, ◌==◌, if◌then◌else◌,
}
use sardis.Common.Sorting.{count}
use sardis.Extern.Sets.{member}
use sardis.Extern.System.{System}
use sardis.Subexec.Command.{Command}
use sardis.Subexec.Group.{Group}
use sardis.Subexec.Configuration.{Configuration, is_skipped}
use sardis.Subexec.Aliases.{Heap, Held, Memory, value, hold, expand}

-- The names are different from each other and from those seen before.
abbrev AreFresh : (seen : List String) → List String → Type 0
AreFresh seen [] = Unit
AreFresh seen (n ∷ names) = (member n seen ≡ false) × AreFresh (n ∷ seen) names

abbrev slots_at : String → List (String × Held) → ℕ
slots_at n = count (λ s. s.0 == n)

module _ (memory : Memory) (sys : System) (conf : Configuration) where
  -- The groups that are not skipped, each followed by a copy for each of its aliases.
  abbrev pub with_copies : List Group → List Group
  with_copies [] = []
  with_copies (cg ∷ groups) =
      let rest = with_copies groups in
      if is_skipped sys conf cg
      then rest
      else cg ∷ map (λ a. record cg { aliases = []; name = a }) cg.aliases ++ rest

  -- The groups behind the first arrays.
  IsExpanded : Heap → List Group → ℕ → Type 0
  IsExpanded h groups n = map (value h) (expand sys conf (hold n groups)) ≡ with_copies groups
