-- ===== src/Subexec/Filter/Exact.antt =====
-- When `FilterCommands` succeeds, and with which commands (subexec/group.go).
use sardis.Common.{
  suc, Bool, true, false, not, ◌&&◌, ◌≡◌, ◌≢◌, refl, sym, ap, ◌↔◌, List, [], ◌∷◌, map, String,
  string_comparable, ◌==◌, arith, eq_iff, eq_refl, if◌then◌else◌, length, keep, All, Bool-cases,
  inl, inr,
}
use sardis.Extern.Sets.{Sets, member}
use sardis.Subexec.Command.{Command, name_prime}
use sardis.Subexec.Filter.{ok, pick, filter_commands}
use sardis.Subexec.Filter.Counting.{
  AreDistinct, distinct_count_iff, keep-all_iff, keep-congr, keep-one_more,
}

-- The names of commands.
abbrev pub names : List Command → List String
names cmds = map name_prime cmds

-- The first command for each name that is asked for and not among those seen.
pub firsts : List String → List String → List Command → List Command
firsts args seen [] = []
firsts args seen (cmd ∷ cmds) =
    let name = name_prime cmd in
    let rest = firsts args (name ∷ seen) cmds in
    let skipped = firsts args seen cmds in
    if member name args && not (member name seen) then cmd ∷ rest else skipped

-- The names that are asked for, not seen, and found.
abbrev hit : List Command → List String → String → Bool
hit cmds seen x = member x (names cmds) && not (member x seen)

and_true : (b : Bool) → (b && true) ≡ b
and_true true = refl
and_true false = refl

keep-no_hit : (seen args : List String) → keep (hit [] seen) args ≡ []
keep-no_hit seen [] = refl
keep-no_hit seen (x ∷ args) = keep-no_hit seen args

-- A name that was seen is no new hit, and one that is not asked for is none.
module _ (cmd : Command) (cmds : List Command) (args seen : List String) where
  abbrev name : String
  name = name_prime cmd

  hit-seen : (x : String) → member name seen ≡ true → hit (cmd ∷ cmds) seen x ≡ hit cmds seen x
  hit-seen x old = elim (Bool-cases (name == x)) [
    | inl same ↦ let e = (eq_iff name x).0 same in rw (← e) (ground (arith, old))
    | inr other ↦ rw other
  ]

  hit-unasked :
      (x : String)
      → member name args ≡ false
      → member x args ≡ true
      → hit (cmd ∷ cmds) seen x ≡ hit cmds seen x
  hit-unasked x absent asked = elim (Bool-cases (name == x)) [
    | inl same ↦ let e = (eq_iff name x).0 same in cc
    | inr other ↦ rw other
  ]

  hit-other : (x : String) → name ≢ x → hit (cmd ∷ cmds) seen x ≡ hit cmds (name ∷ seen) x
  hit-other x other = ground (arith, eq_iff name x)

  keep-hits :
      AreDistinct args
      → length (keep (hit (cmd ∷ cmds) seen) args) ≡ (
          if member name args && not (member name seen)
          then suc (length (keep (hit cmds (name ∷ seen)) args))
          else length (keep (hit cmds seen) args))
  keep-hits d = elim (Bool-cases (member name seen)) [
    | inl old ↦ ground (
      arith,
      old,
      keep-congr (hit (cmd ∷ cmds) seen) (hit cmds seen) args (λ x m. hit-seen x old),
    )
    | inr new ↦ elim (Bool-cases (member name args)) [
      | inl asked ↦
          rw (asked, new)
            (keep-one_more name (hit (cmd ∷ cmds) seen) (hit cmds (name ∷ seen)) args d asked
              (ground (arith, eq_refl name)) (ground (arith, eq_refl name)) hit-other)
      | inr absent ↦ rw absent (
          ap length (
            keep-congr (hit (cmd ∷ cmds) seen) (hit cmds seen) args
              (λ x m. hit-unasked x absent m)))
    ]
  ]

length-firsts :
    (args seen : List String) (cmds : List Command)
    → AreDistinct args
    → length (firsts args seen cmds) ≡ length (keep (hit cmds seen) args)
unfolding firsts
length-firsts args seen [] d = sym (ap length (keep-no_hit seen args))
length-firsts args seen (cmd ∷ cmds) d = ground (
  arith,
  keep-hits cmd cmds args seen d,
  length-firsts args (name_prime cmd ∷ seen) cmds d,
  length-firsts args seen cmds d,
)

-- Of distinct names, as many are selected as there are exactly if each is found.
found_iff :
    (cmds : List Command) (args : List String)
    → AreDistinct args
    → (length (firsts args [] cmds) ≡ length args) ↔ All (λ x. member x (names cmds) ≡ true) args
found_iff cmds args d =
    rw
      (
        length-firsts args [] cmds d,
        keep-congr (hit cmds []) (λ x. member x (names cmds)) args (λ x m. and_true _),
      )
      (keep-all_iff (λ x. member x (names cmds)) args)

length-pos {ℓ} : {A : Type ℓ} (xs : List A) → xs ≢ [] → length xs ≢ 0
length-pos [] h = absurd (h refl)
length-pos (x ∷ xs) h = omega arith

module _ (sets : Sets) where
  open sets use {
    Set, empty, make, check, add, check-make, check-add, add-had, check-empty, len-make,
  }

  abbrev Holds : Set → List String → Type 0
  Holds s seen = (x : String) → check x s ≡ member x seen

  add-Holds :
      (n : String) (s : Set) (seen : List String) → Holds s seen → Holds (add n s).0 (n ∷ seen)
  add-Holds n s seen h x = rw (check-add, h x)

  readd-Holds :
      (n : String) (s : Set) (seen : List String)
      → Holds s seen
      → member n seen ≡ true
      → Holds (add n s).0 seen
  readd-Holds n s seen h old x = elim (Bool-cases (n == x)) [
    | inl same ↦ rw (check-add, same) (rw (← (eq_iff n x).0 same) (sym old))
    | inr other ↦ rw (check-add, other) (h x)
  ]

  pick-eq-firsts :
      (args seen : List String) (s : Set) (cmds : List Command)
      → Holds s seen
      → pick sets (make args) s cmds ≡ firsts args seen cmds
  unfolding pick firsts
  pick-eq-firsts args seen s [] h = refl
  pick-eq-firsts args seen s (cmd ∷ cmds) h =
      let n = name_prime cmd in
      rw (check-make, add-had, h n)
        (elim (Bool-cases (member n args)) [
          | inl asked ↦ elim (Bool-cases (member n seen)) [
            | inl old ↦
                rw (asked, old)
                  (pick-eq-firsts args seen (add n s).0 cmds (readd-Holds n s seen h old))
            | inr new ↦
                rw (asked, new)
                  (ap (◌∷◌ cmd)
                    (pick-eq-firsts args (n ∷ seen) (add n s).0 cmds (add-Holds n s seen h)))
          ]
          | inr absent ↦ rw absent (pick-eq-firsts args seen s cmds h)
        ])

  -- The selection succeeds exactly if there are commands and names, no name is given twice and
  -- each is the name of a command; the result is then the first command of each name, in the
  -- order of the commands.
  pub filter_commands_iff :
      (cmds : List Command) (args : List String) (out : List Command)
      → (filter_commands sets cmds args ≡ ok out) ↔ (
          (cmds ≢ [])
          × (args ≢ [])
          × AreDistinct args
          × All (λ x. member x (names cmds) ≡ true) args
          × (out ≡ firsts args [] cmds))
  unfolding filter_commands
  filter_commands_iff cmds args out =
      let picked = pick-eq-firsts args [] empty cmds check-empty in
      let sizes = len-make args in
      let distinct = distinct_count_iff args in
      (
        λ h.
            let once : AreDistinct args = ground arith in
            let found = found_iff cmds args once in
            (ground arith, ground arith, once, ground arith, ground arith),
        λ (some_cmd, some_arg, once, all_found, same).
            let found = found_iff cmds args once in
            ground (arith, length-pos cmds, length-pos args),
      )
