-- ===== src/Subexec/Aliases.antt =====
-- subexec/subexec.go, `resolveAliasesAndMergeGroups`: the list of groups with one more for each
-- alias, in which groups of one dotted name merge. The map `index` and the groups that stand at its
-- indexes are one list of slots, in the order of the indexes. The commands of a group are a slice of
-- an array, which the copies of the group share. Whether two groups hold one pointer to a host is a
-- parameter.
pub mod Naming
pub mod Unmerged
use sardis.Common.{
  ℕ, zero, suc, ◌+◌, Bool, true, false, not, ◌&&◌, ◌||◌, Option, none, some, List, [], ◌∷◌, ◌++◌,
  map, String, string_comparable, ◌==◌, ltb, leb, nat_beq, if◌then◌else◌, length,
}
use sardis.Common.Int.{int_comparable, ltb_ℤ, leb_ℤ}
use sardis.Common.Sorting.{sort_by}
use sardis.Common.Text.{str_ltb}
use sardis.Extern.System.{System}
use sardis.Util.Dots.{dot_join}
use sardis.Subexec.Command.{Command}
use sardis.Subexec.Group.{Group, do_merge}
use sardis.Subexec.Group.Validate.{deref}
use sardis.Subexec.Configuration.{Configuration, is_skipped}

-- The arrays of commands, to their full capacity.
abbrev Heap : Type 0
Heap = List (List Command)

-- A slice from the start of an array.
pub record Slice : Type 0 where
  pub array : ℕ
  pub len : ℕ

-- A group and the slice that is its field `commands`, which is left empty in the group.
pub record Held : Type 0 where
  pub group : Group
  pub slice : Slice

-- What the runtime decides: what is in the array of a group's slice beyond its end, and what is in a
-- new array beyond the given length, which takes the place of one of the given capacity.
pub record Memory : Type 0 where
  pub spare : Group → List Command
  pub grow : (capacity len : ℕ) → List Command

abbrev array_at : ℕ → Heap → List Command
array_at n [] = []
array_at zero (a ∷ h) = a
array_at (suc n) (a ∷ h) = array_at n h

abbrev set_array : ℕ → List Command → Heap → Heap
set_array n new [] = []
set_array zero new (a ∷ h) = new ∷ h
set_array (suc n) new (a ∷ h) = a ∷ set_array n new h

abbrev first_of : ℕ → List Command → List Command
first_of zero cs = []
first_of (suc n) [] = []
first_of (suc n) (c ∷ cs) = c ∷ first_of n cs

abbrev rest_of : ℕ → List Command → List Command
rest_of zero cs = cs
rest_of (suc n) [] = []
rest_of (suc n) (c ∷ cs) = rest_of n cs

abbrev pub read : Heap → Slice → List Command
read h s = first_of s.len (array_at s.array h)

-- The group with the commands that its slice has now.
abbrev pub value : Heap → Held → Group
value h g = record g.group { commands = read h g.slice }

-- `append`: in place where the array is large enough, or else in a new array.
append_slice : Memory → Heap → Slice → List Command → Heap × Slice
append_slice memory h s new =
    let old = array_at s.array h in
    let len = s.len + length new in
    if leb len (length old)
    then (
      set_array s.array (first_of s.len old ++ (new ++ rest_of len old)) h,
      record { array = s.array; len = len },
    )
    else (
      h ++ (first_of s.len old ++ (new ++ memory.grow (length old) len)) ∷ [],
      record { array = length h; len = len },
    )

-- `doMerge`: which slice is appended to which goes by the hints.
merge_held : Memory → Heap → Held → Held → Heap × Held
unfolding do_merge append_slice
merge_held memory h cg rhv =
    let (merged, done) = do_merge cg.group rhv.group in
    let (h', s) =
      if not done
      then (h, cg.slice)
      else if leb_ℤ rhv.group.sort_hint cg.group.sort_hint
      then append_slice memory h cg.slice (read h rhv.slice)
      else append_slice memory h rhv.slice (read h cg.slice) in
    (h', record { group = merged; slice = s })

with_alias : Held → String → Held
with_alias cg alias = record cg { group = record cg.group { aliases = []; name = alias } }

-- The groups before the expansion: each has an array of its own.
abbrev pub hold : ℕ → List Group → List Held
hold n [] = []
hold n (cg ∷ groups) =
    record {
      group = record cg { commands = [] };
      slice = record { array = n; len = length cg.commands };
    }
    ∷ hold (suc n) groups

abbrev arrays : Memory → List Group → Heap
arrays memory = map (λ cg. cg.commands ++ memory.spare cg)

unfoldable pub dotted : Group → String
unfolding dot_join
dotted cg = dot_join (cg.category ∷ cg.name ∷ [])

module _ (sys : System) (conf : Configuration) where
  -- The loop that appends to `withAliases`.
  unfoldable pub expand : List Held → List Held
  unfolding is_skipped with_alias
  expand [] = []
  expand (cg ∷ groups) =
      let rest = expand groups in
      if is_skipped sys conf cg.group
      then rest
      else cg ∷ map (with_alias cg) cg.group.aliases ++ rest

-- Merge into the group of that name, if there is one. The result of `doMerge` is not looked at.
pub merge_into :
    Memory → String → Held → Heap → List (String × Held) → Option (Heap × List (String × Held))
unfolding merge_held
merge_into memory lhn grp h [] = none
merge_into memory lhn grp h ((n, cg) ∷ slots) =
    let later = merge_into memory lhn grp h slots in
    if n == lhn
    then (let (h', merged) = merge_held memory h cg grp in some (h', (n, merged) ∷ slots))
    else elim later [ none ↦ none | some r ↦ some (r.0, (n, cg) ∷ r.1) ]

-- The loop over the groups, with the arrays, the slots and `haveMerged`.
pub merge_groups :
    Memory → List Held → Heap → List (String × Held) → Bool → Heap × List (String × Held) × Bool
unfolding merge_into dotted
merge_groups memory [] h slots have_merged = (h, slots, have_merged)
merge_groups memory (grp ∷ groups) h slots have_merged =
    elim (merge_into memory (dotted grp.group) grp h slots) [
      | none ↦ merge_groups memory groups h (slots ++ (dotted grp.group, grp) ∷ []) have_merged
      | some r ↦ merge_groups memory groups r.0 r.1 true
    ]

command_less : Command → Command → Bool
unfolding str_ltb
command_less lhv rhv =
    if lhv.sort_hint == rhv.sort_hint
    then str_ltb lhv.name rhv.name
    else ltb_ℤ rhv.sort_hint lhv.sort_hint

-- The commands are sorted in the array.
sort_commands : Heap → Held → Heap
unfolding sort_by command_less
sort_commands h g =
    let old = array_at g.slice.array h in
    let sorted = sort_by command_less (first_of g.slice.len old) in
    set_array g.slice.array (sorted ++ rest_of g.slice.len old) h

-- `irt.ForEach` over the groups.
sort_each : Heap → List Held → Heap
unfolding sort_commands
sort_each h [] = h
sort_each h (g ∷ groups) = sort_each (sort_commands h g) groups

module _ (same_host : Group → Group → Bool) where
  group_less : Group → Group → Bool
  unfolding str_ltb
  group_less lhv rhv =
      if not (same_host lhv rhv)
      then str_ltb (deref lhv.host) (deref rhv.host)
      else if (lhv.synthetic && not rhv.synthetic) || (not lhv.synthetic && rhv.synthetic)
      then not lhv.synthetic
      else if not (lhv.sort_hint == rhv.sort_hint)
      then ltb_ℤ rhv.sort_hint lhv.sort_hint
      else if not (lhv.category == rhv.category)
      then str_ltb lhv.category rhv.category
      else if not (lhv.name == rhv.name)
      then str_ltb lhv.name rhv.name
      else if not (lhv.cmd_name_prefix == rhv.cmd_name_prefix)
      then str_ltb lhv.cmd_name_prefix rhv.cmd_name_prefix
      else ltb (length lhv.commands) (length rhv.commands)

  -- The method, on the groups as they are held.
  resolve_held : Memory → List Held → Heap → List Group
  unfolding merge_groups sort_by sort_each group_less
  resolve_held memory groups h =
      let (h', slots, have_merged) = merge_groups memory groups h [] false in
      let resolved = map (λ s. s.1) slots in
      if have_merged
      then sort_by group_less (map (value (sort_each h' resolved)) resolved)
      else map (value h) groups

  unfoldable pub resolve_groups : Memory → System → Configuration → List Group
  unfolding expand resolve_held
  resolve_groups memory sys conf =
      resolve_held memory (expand sys conf (hold 0 conf.commands)) (arrays memory conf.commands)
