-- ===== src/Subexec/Group/Merge.antt =====
-- When two groups merge, and what the merged group holds (subexec/group.go, `doMerge`).
use mathlib.Core.List.{Perm, perm_append_comm}
use mathlib.Core.List.Perm
use sardis.Common.{◌≤◌, true, ◌≡◌, ◌≢◌, ◌↔◌, ◌⊎◌, [], ◌++◌, string_comparable, arith, eq_iff}
use sardis.Common.Int.{ℤ, magnitude}
use sardis.Subexec.Group.{Group, do_merge, merged_hint}

-- The hint that is kept is one of the two, and neither is larger in absolute value.
merged_hint_bounds :
    (a b : ℤ)
    → ((merged_hint a b ≡ a) ⊎ (merged_hint a b ≡ b))
      × (magnitude a ≤ magnitude (merged_hint a b))
      × (magnitude b ≤ magnitude (merged_hint a b))
unfolding merged_hint
merged_hint_bounds a b = ground arith

-- Two groups merge exactly if they have the same category and, where that is empty, one name.
do_merge_iff :
    (cg rhv : Group)
    → ((do_merge cg rhv).1 ≡ true)
      ↔ ((cg.category ≡ rhv.category) × ((cg.category ≢ "") ⊎ (cg.name ≡ rhv.name)))
unfolding do_merge
do_merge_iff cg rhv = ground (
  arith,
  eq_iff cg.category "",
  eq_iff rhv.category "",
  eq_iff cg.name rhv.name,
  eq_iff cg.category rhv.category,
)

-- A merged group holds the commands of both, each as often as they do, and no alias.
do_merge-perm :
    (cg rhv : Group)
    → (do_merge cg rhv).1 ≡ true
    → Perm (do_merge cg rhv).0.commands (cg.commands ++ rhv.commands)
      × ((do_merge cg rhv).0.aliases ≡ [])
unfolding do_merge
do_merge-perm cg rhv merged =
    ground
      (arith, Perm.refl (cg.commands ++ rhv.commands), perm_append_comm rhv.commands cg.commands)
