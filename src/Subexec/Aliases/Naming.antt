-- ===== src/Subexec/Aliases/Naming.antt =====
-- The names of the groups before and after merging (subexec/subexec.go).
use sardis.Common.{
  ℕ, ◌≤◌, Bool, true, false, not, ◌&&◌, Option, none, some, ◌≡◌, refl, sym, ap, subst, append-nil,
  ◌∙◌, Bool-cases, inl, inr, List, [], ◌∷◌, ◌++◌, map, String, string_comparable, ◌==◌, arith,
  eq_iff, if◌then◌else◌, All, All-append, any, ltb,
}
use sardis.Common.Sorting.{count, count-append, count-sort_by}
use sardis.Extern.System.{System}
use sardis.Subexec.Group.{Group, do_merge}
use sardis.Subexec.Configuration.{Configuration}
use sardis.Subexec.Aliases.{
  Heap, Held, Memory, value, arrays, hold, dotted, expand, merge_held, merge_into, merge_groups,
  sort_each, group_less, resolve_held, resolve_groups,
}

abbrev Slots : Type 0
Slots = List (String × Held)

-- Each slot is under the dotted name of its group.
AreNamed : Slots → Type 0
AreNamed = All (λ s. dotted s.1.group ≡ s.0)

dotted-do_merge : (cg grp : Group) → dotted (do_merge cg grp).0 ≡ dotted cg
unfolding do_merge dotted
dotted-do_merge cg grp = ground arith

map-appended :
    (slots : Slots) (s : String × Held) (groups : List Held)
    → map (λ t. t.1) (slots ++ s ∷ []) ++ groups ≡ map (λ t. t.1) slots ++ s.1 ∷ groups
map-appended [] s groups = refl
map-appended (t ∷ slots) s groups = ap (λ l. t.1 ∷ l) (map-appended slots s groups)

module _ (memory : Memory) where
  dotted-merge_held :
      (h : Heap) (cg grp : Held) → dotted (merge_held memory h cg grp).1.group ≡ dotted cg.group
  unfolding merge_held
  dotted-merge_held h cg grp = dotted-do_merge cg.group grp.group

  merge_groups-true :
      (groups : List Held) (h : Heap) (slots : Slots)
      → (merge_groups memory groups h slots true).2 ≡ true
  unfolding merge_groups
  merge_groups-true [] h slots = refl
  merge_groups-true (grp ∷ groups) h slots =
      go (merge_into memory (dotted grp.group) grp h slots) (merge_groups-true groups)
    where
      go :
          (o : Option (Heap × Slots))
          → ((h' : Heap) (s : Slots) → (merge_groups memory groups h' s true).2 ≡ true)
          → (elim o as (λ _. Heap × Slots × Bool) [
            | none ↦ merge_groups memory groups h (slots ++ (dotted grp.group, grp) ∷ []) true
            | some r ↦ merge_groups memory groups r.0 r.1 true
          ]).2
            ≡ true
      go none ih = ih _ _
      go (some r) ih = ih r.0 r.1

abbrev pub named : String → Group → Bool
named name grp = dotted grp == name

abbrev pub held_named : String → Held → Bool
held_named name g = named name g.group

module _ (memory : Memory) (name : String) where
  slots_at : String → Slots → ℕ
  slots_at n = count (λ s. s.0 == n)

  -- What merging into the slots does to the names.
  Places : Held → Slots → Option (Heap × Slots) → Type 0
  Places grp slots none = slots_at (dotted grp.group) slots ≡ 0
  Places grp slots (some r) =
      (slots_at name r.1 ≡ slots_at name slots)
      × (1 ≤ slots_at (dotted grp.group) slots)
      × AreNamed r.1

  later-Places :
      (n : String) (cg grp : Held) (slots : Slots)
      → (later : Option (Heap × Slots)) → dotted cg.group ≡ n
      → (n == dotted grp.group) ≡ false
      → Places grp slots later
      → Places grp
          ((n, cg) ∷ slots)
          (elim later [ none ↦ none | some r ↦ some (r.0, (n, cg) ∷ r.1) ])
  unfolding Places AreNamed slots_at
  later-Places n cg grp slots none hc other h = rw other h
  later-Places n cg grp slots (some rest) hc other (same, least, hs) =
      (ground (arith, same), rw other least, (hc, hs))

  merge_into-Places :
      (grp : Held) (h : Heap) (slots : Slots)
      → AreNamed slots
      → Places grp slots (merge_into memory (dotted grp.group) grp h slots)
  unfolding Places AreNamed slots_at merge_into
  merge_into-Places grp h [] hs = refl
  merge_into-Places grp h ((n, cg) ∷ slots) (hc, hs) =
      let later = merge_into-Places grp h slots hs in
      elim (Bool-cases (n == dotted grp.group)) [
        | inl same ↦
            rw same (refl, ground (arith, same), (dotted-merge_held memory h cg grp ∙ hc, hs))
        | inr other ↦ rw other (later-Places n cg grp slots _ hc other later)
      ]

  -- The loop over the groups makes one slot for the name, and none if no group has it. If nothing
  -- merged, then the slots hold the groups as they are.
  Result : List Held → Slots → Heap × Slots × Bool → Type 0
  Result groups slots (h, out, have_merged) =
      (slots_at name out ≡ (
        if not (ltb 0 (slots_at name slots)) && any (held_named name) groups
        then 1
        else slots_at name slots))
      × AreNamed out
      × (have_merged ≡ false → map (λ s. s.1) out ≡ map (λ s. s.1) slots ++ groups)

  Placed : List Held → Type 0
  Placed groups =
      (h : Heap) (slots : Slots) (have_merged : Bool)
      → AreNamed slots
      → Result groups slots (merge_groups memory groups h slots have_merged)

  appended-Result :
      (grp : Held) (groups : List Held) (slots : Slots)
      → (out : Heap × Slots × Bool) → slots_at (dotted grp.group) slots ≡ 0
      → Result groups (slots ++ (dotted grp.group, grp) ∷ []) out
      → Result (grp ∷ groups) slots out
  unfolding Result slots_at
  appended-Result grp groups slots out absent (size, hs, whole) =
      let added = count-append (λ s. s.0 == name) slots ((dotted grp.group, grp) ∷ []) in
      (
        elim (Bool-cases (dotted grp.group == name)) [
          | inl same ↦
              let none_yet =
                ap (λ n. slots_at n slots) (sym ((eq_iff (dotted grp.group) name).0 same))
                ∙ absent in
              ground (arith, same, size, added, none_yet)
          | inr other ↦ ground (arith, other, size, added)
        ],
        hs,
        λ h. whole h ∙ map-appended slots (dotted grp.group, grp) groups,
      )

  merged-Result :
      (grp : Held) (groups : List Held) (slots : Slots) (r : Heap × Slots)
      → (out : Heap × Slots × Bool) → Places grp slots (some r)
      → out.2 ≡ true
      → Result groups r.1 out
      → Result (grp ∷ groups) slots out
  unfolding Result Places
  merged-Result grp groups slots r out (same, least, _) had (size, hs, whole) = (
    elim (Bool-cases (dotted grp.group == name)) [
      | inl e ↦
          let some_yet =
            subst (λ n. 1 ≤ slots_at n slots) ((eq_iff (dotted grp.group) name).0 e) least in
          ground (arith, size, same, some_yet)
      | inr other ↦ ground (arith, other, size, same)
    ],
    hs,
    λ h. absurd (ground (arith, had, h)),
  )

  continue-Result :
      (grp : Held) (groups : List Held) (h : Heap) (slots : Slots) (have_merged : Bool)
      → (o : Option (Heap × Slots)) → AreNamed slots
      → Placed groups
      → Places grp slots o
      → Result (grp ∷ groups) slots (elim o as (λ _. Heap × Slots × Bool) [
        | none ↦ merge_groups memory groups h (slots ++ (dotted grp.group, grp) ∷ []) have_merged
        | some r ↦ merge_groups memory groups r.0 r.1 true
      ])
  unfolding Placed Places AreNamed
  continue-Result grp groups h slots have_merged none hs ih absent =
      appended-Result grp groups slots _ absent
        (ih h _ have_merged (All-append _ slots _ hs (refl, tt)))
  continue-Result grp groups h slots have_merged (some r) hs ih (same, least, again) =
      merged-Result grp groups slots r _ (same, least, again)
        (merge_groups-true memory groups r.0 r.1) (ih r.0 r.1 true again)

  merge_groups-Placed : (groups : List Held) → Placed groups
  unfolding Placed Result merge_groups
  merge_groups-Placed [] h slots have_merged hs = (ground arith, hs, λ e. sym (append-nil _))
  merge_groups-Placed (grp ∷ groups) h slots have_merged hs =
      continue-Result grp groups h slots have_merged _ hs (merge_groups-Placed groups)
        (merge_into-Places grp h slots hs)

  count-slots :
      (h : Heap) (slots : Slots)
      → AreNamed slots
      → count (named name) (map (value h) (map (λ s. s.1) slots)) ≡ slots_at name slots
  unfolding AreNamed slots_at dotted
  count-slots h [] hs = refl
  count-slots h ((n, grp) ∷ slots) (hn, hs) = rw hn (ground (arith, count-slots h slots hs))

  -- Exactly one of the resolved groups has the dotted name, if any group has it once the aliases
  -- are added, and otherwise none.
  pub count-resolve_groups :
      (same_host : Group → Group → Bool) (sys : System) (conf : Configuration)
      → count (named name) (resolve_groups same_host memory sys conf)
        ≡ (if any (held_named name) (expand sys conf (hold 0 conf.commands)) then 1 else 0)
  unfolding resolve_groups resolve_held Result Placed AreNamed slots_at
  count-resolve_groups same_host sys conf =
      let groups = expand sys conf (hold 0 conf.commands) in
      let h = arrays memory conf.commands in
      let merged = merge_groups memory groups h [] false in
      let (size, hs, whole) = merge_groups-Placed groups h [] false tt in
      let resolved = map (λ s. s.1) merged.1 in
      elim (Bool-cases merged.2) [
        | inl had ↦ rw had (
            count-sort_by (named name) (group_less same_host)
              (map (value (sort_each merged.0 resolved)) resolved)
            ∙ count-slots (sort_each merged.0 resolved) merged.1 hs
            ∙ size)
        | inr none_had ↦ rw none_had (
            ap (λ l. count (named name) (map (value h) l)) (sym (whole none_had))
            ∙ count-slots h merged.1 hs
            ∙ size)
      ]
