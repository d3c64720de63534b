-- ===== src/Gadget/BuildOrder.antt =====
-- tools/gadget/gendget.go: the groups of packages to build one after the other. The context stays
-- alive, and the packages are those that `Collect` found.
pub mod Visits
pub mod Rounds
pub mod Ending
pub mod Groups
pub mod Layers
pub mod Counts
pub mod Once
use sardis.Common.{
  ℕ, zero, suc, ◌+◌, ◌*◌, Bool, true, false, not, ◌&&◌, ◌||◌, Option, none, some, List, [], ◌∷◌,
  ◌++◌, String, string_comparable, leb, nat_beq, if◌then◌else◌, length, keep, all,
}
use sardis.Common.Maps.{load}
use sardis.Common.Text.{str_ltb}
use sardis.Extern.Sets.{Sets}
use sardis.Gadget.Packages.{PackageInfo, Packages, index_by_package_name, graph}

pub record BuildOrder : Type 0 where
  pub order : List (List String)
  pub packages : Packages
  pub path : String

abbrev pub is_empty {ℓ} : {A : Type ℓ} → List A → Bool
is_empty [] = true
is_empty (x ∷ xs) = false

-- `sort.Strings`, by insertion.
unfoldable pub insert_string : String → List String → List String
insert_string x [] = x ∷ []
insert_string x (y ∷ ys) =
    let later = insert_string x ys in if str_ltb y x then y ∷ later else x ∷ y ∷ ys

unfoldable pub sort_strings : List String → List String
sort_strings [] = []
sort_strings (x ∷ xs) = insert_string x (sort_strings xs)

-- Enough rounds for a queue of this length.
abbrev fuel_for : ℕ → ℕ
fuel_for n = n * (11 * n + 3) + 11 * n + 3

module _ (sets : Sets) where
  -- The groups of `Narrow`.
  unfoldable pub narrow_order : sets.Set → List (List String) → List (List String)
  narrow_order limits [] = []
  narrow_order limits (group ∷ order) =
      let ng = keep (λ name. sets.check name limits) group in
      let rest = narrow_order limits order in if is_empty ng then rest else ng ∷ rest

  unfoldable pub narrow : sets.Set → BuildOrder → BuildOrder
  narrow limits bo = record bo { order = narrow_order limits bo.order }

  -- The variables of the loop of `GetBuildOrder`.
  pub record Progress : Type 0 where
    pub build_order : List (List String)
    pub next : List String
    pub queue : List String
    pub seen : sets.Set
    pub runs_since_progress : ℕ

  pub data Step : Type 0 where
    finished : Progress → Step
    more : Progress → Step
    irresolvable : Step
    bad_index : Step

  -- `out_of_fuel` is for the recursion only.
  pub data Built : Type 0 where
    built : BuildOrder → Built
    no_modules : Built
    irresolvable_dependency : Built
    invariant_violated : Built
    out_of_fuel : Built

  unfoldable pub add_all : List String → sets.Set → sets.Set
  add_all [] seen = seen
  add_all (n ∷ next) seen = add_all next (sets.add n seen).0

  -- The sorted group joins the order, and its packages are seen.
  unfoldable pub flush : Progress → Progress
  unfolding add_all
  flush s = record s {
    build_order = s.build_order ++ sort_strings s.next ∷ [];
    seen = add_all (sort_strings s.next) s.seen;
    next = [];
    runs_since_progress = 0;
  }

  module _ (index : List (String × PackageInfo)) where
    -- The loop over the graph: packages without dependencies, and the queue of the others; `none`
    -- is the panic for a name that the index does not have.
    unfoldable pub collect_zero : List (String × List String) → Option (List String × List String)
    collect_zero [] = some ([], [])
    collect_zero ((node, edges) ∷ nodes) = elim (load node index) [
      | none ↦ none
      | some info ↦ elim (collect_zero nodes) [
        | none ↦ none
        | some (next, queue) ↦
            if is_empty edges && is_empty info.dependencies
            then some (node ∷ next, queue)
            else some (next, node ∷ queue)
      ]
    ]

    -- The package at the front of the queue: put back while a dependency is not seen.
    unfoldable pub visit : String → List String → Progress → Step
    visit node rest s =
        if sets.check node s.seen
        then more (record s { queue = rest })
        else elim (load node index) [
          | none ↦ bad_index
          | some info ↦
              if all (λ dep. sets.check dep s.seen) info.dependencies
              then more
                  (record s { queue = rest; next = s.next ++ node ∷ []; runs_since_progress = 0 })
              else more (record s {
                queue = rest ++ node ∷ [];
                runs_since_progress = s.runs_since_progress + 1;
              })
        ]

    unfoldable pub pop_front : List String → Progress → Step
    unfolding visit
    pop_front [] s = finished s
    pop_front (node ∷ rest) s = visit node rest s

    -- One round of the loop, with the number of packages and of nodes.
    unfoldable pub flushed : Progress → Progress
    unfolding flush
    flushed s =
        if nat_beq s.runs_since_progress (length s.queue) && not (is_empty s.next)
        then flush s
        else s

    unfoldable pub step : (pkgs nodes : ℕ) → Progress → Step
    unfolding flushed pop_front
    step pkgs nodes s =
        if nat_beq pkgs 0 || leb nodes (sets.len s.seen) || is_empty s.queue
        then finished s
        else (let s' = flushed s in
            if leb (length s'.queue * 10) s'.runs_since_progress
            then irresolvable
            else pop_front s'.queue s')

    -- What is left in `next` is the last group.
    unfoldable pub complete : Progress → List (List String)
    complete s = if is_empty s.next then s.build_order else s.build_order ++ s.next ∷ []

    unfoldable pub rounds : ℕ → (path : String) → Packages → Progress → Built
    unfolding step complete
    rounds zero path pkgs s = out_of_fuel
    rounds (suc fuel) path pkgs s = elim (step (length pkgs) (length (graph pkgs)) s) [
      | finished s' ↦ built (record { order = complete s'; packages = pkgs; path = path })
      | more s' ↦ rounds fuel path pkgs s'
      | irresolvable ↦ irresolvable_dependency
      | bad_index ↦ invariant_violated
    ]

  -- The variables before the loop, once the packages without dependencies are known.
  unfoldable pub start : List String × List String → Progress
  unfolding flush
  start (next, queue) = flush (record {
    build_order = [];
    next = next;
    queue = queue;
    seen = sets.empty;
    runs_since_progress = 0;
  })

  -- `GetBuildOrder`, from the packages of the module.
  unfoldable pub get_build_order : (path : String) → Packages → Built
  unfolding rounds collect_zero
  get_build_order path pkgs =
      let index = index_by_package_name pkgs in
      if nat_beq (length pkgs) 0 then no_modules else elim (collect_zero index (graph pkgs)) [
        | none ↦ invariant_violated
        | some zero_deps ↦ rounds index (fuel_for (length zero_deps.1)) path pkgs (start zero_deps)
      ]
