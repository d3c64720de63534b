-- ===== src/Gadget/BuildOrder/Rounds.antt =====
-- What one round of the loop of `GetBuildOrder` does (tools/gadget/gendget.go).
use sardis.Common.{
  string_comparable, sym, ℕ, zero, suc, ◌*◌, ◌<◌, Bool, true, ◌||◌, Option, none, some, ◌≡◌, refl,
  List, [], ◌∷◌, String, arith, leb, nat_beq, if◌then◌else◌, length, Bool-cases, inl, inr, ◌⊎◌,
}
use sardis.Extern.Sets.{Sets}
use sardis.Gadget.Packages.{PackageInfo, Packages, graph, index_by_package_name}
use sardis.Gadget.BuildOrder.{
  Progress, Step, finished, more, irresolvable, bad_index, is_empty, collect_zero, pop_front, flush,
  flushed, step, rounds, complete, Built, built, BuildOrder, irresolvable_dependency,
  invariant_violated, no_modules, fuel_for, start, get_build_order,
}

module _ (sets : Sets) where
  -- The round from its two tests.
  abbrev guarded : (stop : Bool) (s t : Progress sets) → Step sets → Step sets
  guarded stop s t popped =
      if stop
      then finished s
      else if leb (length t.queue * 10) t.runs_since_progress
      then irresolvable
      else popped

  guarded-more :
      (stop : Bool) (s t s' : Progress sets) (popped : Step sets)
      → guarded stop s t popped ≡ more s'
      → (t.runs_since_progress < length t.queue * 10) × (popped ≡ more s')
  guarded-more stop s t s' popped h = ground arith

  guarded-finished :
      (stop : Bool) (s t s' : Progress sets) (popped : Step sets)
      → guarded stop s t popped ≡ finished s'
      → ((stop ≡ true) × (s ≡ s')) ⊎ (popped ≡ finished s')
  guarded-finished stop s t s' popped h = ground arith

  module _ (index : List (String × PackageInfo)) (pkgs nodes : ℕ) where
    pub step-more :
        (s s' : Progress sets)
        → step sets index pkgs nodes s ≡ more s'
        → let t = flushed sets index s in
          (t.runs_since_progress < length t.queue * 10) × (pop_front sets index t.queue t ≡ more s')
    unfolding step
    step-more s s' h =
        let t = flushed sets index s in
        guarded-more (nat_beq pkgs 0 || leb nodes (sets.len s.seen) || is_empty s.queue) s t s'
          (pop_front sets index t.queue t) h

    pop_front-finished :
        (queue : List String) (t s' : Progress sets)
        → pop_front sets index queue t ≡ finished s'
        → (queue ≡ []) × (t ≡ s')
    unfolding pop_front
    pop_front-finished [] t s' h = (refl, ground arith)
    pop_front-finished (node ∷ rest) t s' h = absurd (ground arith)

    -- The test that ends the loop.
    abbrev pub stops : Progress sets → Bool
    stops s = nat_beq pkgs 0 || leb nodes (sets.len s.seen) || is_empty s.queue

    flushed-queue : (s : Progress sets) → (flushed sets index s).queue ≡ s.queue
    unfolding flushed flush
    flushed-queue s = ground arith

    no_queue :
        (s : Progress sets) (queue : List String) → s.queue ≡ queue → queue ≡ [] → stops s ≡ true
    no_queue s queue is h = rw (is, h) (ground arith)

    step-finished :
        (s s' : Progress sets)
        → step sets index pkgs nodes s ≡ finished s'
        → (stops s ≡ true) × (s ≡ s')
    unfolding step
    step-finished s s' h =
        let t = flushed sets index s in
        elim (Bool-cases (stops s)) [
          | inl stop ↦ (stop, ground (arith, stop, h))
          | inr go ↦ elim (guarded-finished (stops s) s t s' (pop_front sets index t.queue t) h) [
            | inl found ↦ found
            | inr popped ↦
                let stop =
                  no_queue s t.queue (sym (flushed-queue s))
                    (pop_front-finished t.queue t s' popped).0 in
                cc
          ]
        ]

  module _ (index : List (String × PackageInfo)) (path : String) (pkgs : Packages) where
    abbrev round : Progress sets → Step sets
    round s = step sets index (length pkgs) (length (graph pkgs)) s

    -- What holds at the start and is kept by each round holds where the loop ends.
    pub rounds-built :
        (I : Progress sets → Type 0)
        → ((s s' : Progress sets) → I s → round s ≡ more s' → I s')
        → (fuel : ℕ) (s : Progress sets) (bo : BuildOrder) → I s
        → rounds sets index fuel path pkgs s ≡ built bo
        → (s' : Progress sets) × I s'
          × (stops index (length pkgs) (length (graph pkgs)) s' ≡ true)
          × (bo ≡ record { order = complete sets index s'; packages = pkgs; path = path })
    unfolding rounds
    rounds-built I keeps zero s bo i h = absurd (ground arith)
    rounds-built I keeps (suc fuel) s bo i h = stepped (round s) refl (rounds-built I keeps fuel) h
      where
        stepped :
            (r : Step sets)
            → round s ≡ r
            → ((s1 : Progress sets) (bo1 : BuildOrder)
                → I s1
                → rounds sets index fuel path pkgs s1 ≡ built bo1
                → (s' : Progress sets) × I s'
                  × (stops index (length pkgs) (length (graph pkgs)) s' ≡ true)
                  × (bo1 ≡ record { order = complete sets index s'; packages = pkgs; path = path }))
            → (elim r as (λ _. Built sets) [
              | finished s' ↦
                  built (record { order = complete sets index s'; packages = pkgs; path = path })
              | more s' ↦ rounds sets index fuel path pkgs s'
              | irresolvable ↦ irresolvable_dependency
              | bad_index ↦ invariant_violated
            ])
              ≡ built bo
            → (s' : Progress sets) × I s'
              × (stops index (length pkgs) (length (graph pkgs)) s' ≡ true)
              × (bo ≡ record { order = complete sets index s'; packages = pkgs; path = path })
        stepped (finished s') ran ih h =
            let (stop, same) = step-finished index (length pkgs) (length (graph pkgs)) s s' ran in
            (s, i, stop, rw same (ground arith))
        stepped (more s') ran ih h = ih s' bo (keeps s s' i ran) h
        stepped irresolvable ran ih h = absurd (ground arith)
        stepped bad_index ran ih h = absurd (ground arith)

  -- A build order comes from the loop, started on what the first loop found.
  pub get_build_order-rounds :
      (path : String) (pkgs : Packages) (bo : BuildOrder)
      → get_build_order sets path pkgs ≡ built bo
      → (zero_deps : List String × List String) × (collect_zero sets
            (index_by_package_name pkgs)
            (graph pkgs)
          ≡ some zero_deps)
        × (rounds sets
              (index_by_package_name pkgs)
              (fuel_for (length zero_deps.1))
              path
              pkgs
              (start sets zero_deps)
            ≡ built bo)
  unfolding get_build_order
  get_build_order-rounds path pkgs bo =
      on_zero (collect_zero sets (index_by_package_name pkgs) (graph pkgs)) refl
    where
      on_zero :
          (c : Option (List String × List String))
          → collect_zero sets (index_by_package_name pkgs) (graph pkgs) ≡ c
          → (if nat_beq (length pkgs) 0 then no_modules else (elim c as (λ _. Built sets) [
            | none ↦ invariant_violated
            | some zero_deps ↦
                rounds sets
                  (index_by_package_name pkgs)
                  (fuel_for (length zero_deps.1))
                  path
                  pkgs
                  (start sets zero_deps)
          ]))
            ≡ built bo
          → (zero_deps : List String × List String) × (collect_zero sets
                (index_by_package_name pkgs)
                (graph pkgs)
              ≡ some zero_deps)
            × (rounds sets
                  (index_by_package_name pkgs)
                  (fuel_for (length zero_deps.1))
                  path
                  pkgs
                  (start sets zero_deps)
                ≡ built bo)
      on_zero none found h = absurd (ground arith)
      on_zero (some zero_deps) found h = (zero_deps, found, ground arith)
