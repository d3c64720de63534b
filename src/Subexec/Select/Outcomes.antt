-- ===== src/Subexec/Select/Outcomes.antt =====
-- What `ResolveCommands` gives for several arguments (subexec/list.go).
use sardis.Common.{
  ◌+◌, Bool, true, false, not, ◌≡◌, ◌≢◌, refl, sym, ap, ◌∙◌, ◌↔◌, List, [], ◌∷◌, String,
  string_comparable, arith, eq_iff, length, keep, All,
}
use sardis.Extern.Sets.{Sets}
use sardis.Extern.System.{System}
use sardis.Subexec.Command.{Command}
use sardis.Subexec.Filter.{Filtered, filter_commands}
use sardis.Subexec.Filter.Counting.{AreDistinct, distinct_count_iff}
use sardis.Subexec.Configuration.{Configuration}
use sardis.Subexec.Select.{
  CommandListStage, no_stage, Selected, stage, unreachable, from_filter, is_all, is_groups,
  is_group, all_commands, resolve_one, resolve_many, resolve_commands,
}

keep_split :
    (p : String → Bool) (xs : List String)
    → length (keep p xs) + length (keep (λ x. not (p x)) xs) ≡ length xs
keep_split p [] = omega arith
keep_split p (x ∷ xs) = ground (arith, keep_split p xs)

from_filter-returns :
    (f : List Command → CommandListStage) (r : Filtered) → from_filter f r ≢ unreachable
from_filter-returns f (Filtered.ok cmds) = λ e. cc
from_filter-returns f (Filtered.err x) = λ e. cc

-- The stage of a list of group names.
abbrev pub groups_stage : List String → CommandListStage
groups_stage args = record no_stage { next_label = "groups"; selections = args }

abbrev label_of : Selected → String
label_of (stage s) = s.next_label
label_of _ = ""

module _ (p : String → Bool) where
  abbrev others : List String → List String
  others = keep (λ x. not (p x))

  none_other : (xs : List String) → length (others xs) ≡ 0 → All (λ x. p x ≡ true) xs
  none_other [] h = tt
  none_other (x ∷ xs) h = ground (arith, none_other xs)

  no_others : (xs : List String) → All (λ x. p x ≡ true) xs → length (others xs) ≡ 0
  no_others [] h = refl
  no_others (x ∷ xs) (px, h) = ground (arith, no_others xs h)

module _ (sets : Sets) (sys : System) (arrange : List String → List String)
    (conf : Configuration) where
  resolve_many-returns :
      (x : String) (xs : List String) → resolve_many sets sys arrange conf (x ∷ xs) ≢ unreachable
  unfolding resolve_many
  resolve_many-returns x xs = ground (
    arith,
    keep_split (is_group sys conf) (x ∷ xs),
    from_filter-returns (λ cmds. record no_stage { commands = cmds })
        (filter_commands sets (all_commands sys conf) (x ∷ xs)),
  )

  resolve_one-returns : (x : String) → resolve_one sets sys arrange conf x ≢ unreachable
  unfolding resolve_one
  resolve_one-returns x = ground (
    arith,
    from_filter-returns (λ cmds. record no_stage { next_label = "sardis"; commands = cmds })
        (filter_commands sets (all_commands sys conf) (x ∷ [])),
  )

  -- The branch that is marked unreachable is never taken.
  resolve_commands-returns :
      (args : List String) → resolve_commands sets sys arrange conf args ≢ unreachable
  unfolding resolve_commands
  resolve_commands-returns [] = λ e. cc
  resolve_commands-returns (x ∷ []) = resolve_one-returns x
  resolve_commands-returns (x ∷ y ∷ xs) = ground (arith, resolve_many-returns x (y ∷ xs))

  filter_stage-ne :
      (args : List String) (r : Filtered)
      → from_filter (λ cmds. record no_stage { commands = cmds }) r ≢ stage (groups_stage args)
  filter_stage-ne args (Filtered.ok cmds) = λ e.
      let labels : ◌≡◌ {A = String} "" "groups" = ap label_of e in
      ground (arith, eq_iff "" "groups")
  filter_stage-ne args (Filtered.err x) = λ e. cc

  resolve_many-sizes :
      (x : String) (xs : List String)
      → resolve_many sets sys arrange conf (x ∷ xs) ≡ stage (groups_stage (x ∷ xs))
      → (length (others (is_group sys conf) (x ∷ xs)) ≡ 0)
        × (sets.len (sets.make (x ∷ xs)) ≡ length (x ∷ xs))
  unfolding resolve_many
  resolve_many-sizes x xs h =
      ground
        (arith, filter_stage-ne (x ∷ xs) (filter_commands sets (all_commands sys conf) (x ∷ xs)))

  resolve_many-groups :
      (x : String) (xs : List String)
      → length (others (is_group sys conf) (x ∷ xs)) ≡ 0
      → sets.len (sets.make (x ∷ xs)) ≡ length (x ∷ xs)
      → resolve_many sets sys arrange conf (x ∷ xs) ≡ stage (groups_stage (x ∷ xs))
  unfolding resolve_many
  resolve_many-groups x xs none_left size = ground (arith, keep_split (is_group sys conf) (x ∷ xs))

  resolve_many-groups_iff :
      (x : String) (xs : List String)
      → (resolve_many sets sys arrange conf (x ∷ xs) ≡ stage (groups_stage (x ∷ xs)))
        ↔ (All (λ item. is_group sys conf item ≡ true) (x ∷ xs) × AreDistinct (x ∷ xs))
  resolve_many-groups_iff x xs =
      let args : List String = x ∷ xs in
      let distinct = distinct_count_iff args in
      (
        λ h.
            let (none_left, size) = resolve_many-sizes x xs h in
            (
              none_other (is_group sys conf) args none_left,
              distinct.0 (sym (sets.len-make args) ∙ size),
            ),
        λ (all_groups, once).
            resolve_many-groups x xs (no_others (is_group sys conf) args all_groups)
              (sets.len-make args ∙ distinct.1 once),
      )

  -- Two arguments or more, of which the first is no keyword, select groups exactly if each is the
  -- name of a group and none is given twice.
  pub resolve_commands-groups_iff :
      (x y : String) (xs : List String)
      → is_all x ≡ false
      → is_groups x ≡ false
      → (resolve_commands sets sys arrange conf (x ∷ y ∷ xs) ≡ stage (groups_stage (x ∷ y ∷ xs)))
        ↔ (All (λ item. is_group sys conf item ≡ true) (x ∷ y ∷ xs) × AreDistinct (x ∷ y ∷ xs))
  unfolding resolve_commands
  resolve_commands-groups_iff x y xs not_all not_groups =
      rw (not_all, not_groups) (resolve_many-groups_iff x (y ∷ xs))
