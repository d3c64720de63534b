-- ===== src/Gadget/BuildOrder/Ending.antt =====
-- The loop of `GetBuildOrder` ends (tools/gadget/gendget.go).
use sardis.Common.{
  ap, ℕ, zero, suc, ◌+◌, ◌-◌, ◌*◌, ◌≤◌, ◌<◌, false, Option, none, some, ◌≡◌, ◌≢◌, refl, List, [],
  ◌∷◌, ◌++◌, String, arith, nat_beq, if◌then◌else◌, length, length-append,
}
use sardis.Extern.Sets.{Sets}
use sardis.Gadget.Packages.{PackageInfo, Packages, index_by_package_name, graph}
use sardis.Gadget.BuildOrder.{
  Progress, Step, finished, more, irresolvable, bad_index, Built, built, no_modules,
  irresolvable_dependency, invariant_violated, out_of_fuel, is_empty, flush, collect_zero, visit,
  pop_front, flushed, step, complete, rounds, fuel_for, start, get_build_order,
}
use sardis.Gadget.BuildOrder.Rounds.{step-more}

-- A weight for each name of the queue.
abbrev weight : ℕ → List String → ℕ
weight k [] = 0
weight k (x ∷ xs) = k + weight k xs

weight-append : (k : ℕ) (xs ys : List String) → weight k (xs ++ ys) ≡ weight k xs + weight k ys
weight-append k [] ys = omega arith
weight-append k (x ∷ xs) ys = omega (arith, weight-append k xs ys)

weight-length : (k : ℕ) (xs : List String) → weight k xs ≡ length xs * k
weight-length k [] = omega arith
weight-length k (x ∷ xs) = omega (arith, weight-length k xs)

is_empty-push : (xs : List String) (x : String) → is_empty (xs ++ x ∷ []) ≡ false
is_empty-push [] x = refl
is_empty-push (y ∷ ys) x = refl

module _ (sets : Sets) where
  -- What each round makes smaller: packages that wait weigh most, then the rounds that may pass
  -- without progress before a group is closed or the loop gives up.
  abbrev measure : ℕ → Progress sets → ℕ
  measure n s =
      weight (11 * n + 3) s.queue
      + (if is_empty s.next
          then 10 * n + 1 - s.runs_since_progress
          else 11 * n + 2 - s.runs_since_progress)

  module _ (index : List (String × PackageInfo)) where
    visit-measure :
        (n : ℕ) (node : String) (rest : List String) (s s' : Progress sets)
        → suc (length rest) ≤ n
        → s.runs_since_progress < 10 * n
        → s.queue ≡ node ∷ rest
        → visit sets index node rest s ≡ more s'
        → (measure n s' < measure n s) × (length s'.queue ≤ n)
    unfolding visit
    visit-measure n node rest s s' small few front h = ground (
      arith,
      is_empty-push s.next node,
      weight-append (11 * n + 3) rest (node ∷ []),
      length-append rest (node ∷ []),
    )

    pop_front-measure :
        (n : ℕ) (t s' : Progress sets) (queue : List String)
        → t.queue ≡ queue
        → length queue ≤ n
        → t.runs_since_progress < 10 * n
        → pop_front sets index queue t ≡ more s'
        → (measure n s' < measure n t) × (length s'.queue ≤ n)
    unfolding pop_front
    pop_front-measure n t s' [] _ _ _ h = cc
    pop_front-measure n t s' (node ∷ rest) is small few h =
        visit-measure n node rest t s' small few is h

    flushed-measure :
        (n : ℕ) (s : Progress sets)
        → length s.queue ≤ n
        → (measure n (flushed sets index s) ≤ measure n s)
          × ((flushed sets index s).queue ≡ s.queue)
    unfolding flushed flush
    flushed-measure n s small = ground arith

    step-measure :
        (n pkgs nodes : ℕ) (s s' : Progress sets)
        → length s.queue ≤ n
        → step sets index pkgs nodes s ≡ more s'
        → (measure n s' < measure n s) × (length s'.queue ≤ n)
    step-measure n pkgs nodes s s' small h =
        let flushes = flushed-measure n s small in
        let (few, popped) = step-more sets index pkgs nodes s s' h in
        let t = flushed sets index s in
        let same = ap length flushes.1 in
        let less = pop_front-measure n t s' t.queue refl (omega arith) (omega arith) popped in
        (omega arith, less.1)

    rounds-ends :
        (fuel n : ℕ) (path : String) (pkgs : Packages) (s : Progress sets)
        → length s.queue ≤ n
        → measure n s < fuel
        → rounds sets index fuel path pkgs s ≢ out_of_fuel
    unfolding rounds
    rounds-ends zero n path pkgs s small enough = absurd (omega arith)
    rounds-ends (suc fuel) n path pkgs s small enough =
        stepped (step sets index (length pkgs) (length (graph pkgs)) s) refl
          (rounds-ends fuel n path pkgs)
      where
        stepped :
            (r : Step sets)
            → step sets index (length pkgs) (length (graph pkgs)) s ≡ r
            → ((s' : Progress sets)
                → length s'.queue ≤ n
                → measure n s' < fuel
                → rounds sets index fuel path pkgs s' ≢ out_of_fuel)
            → (elim r as (λ _. Built sets) [
              | finished s' ↦
                  built (record { order = complete sets index s'; packages = pkgs; path = path })
              | more s' ↦ rounds sets index fuel path pkgs s'
              | irresolvable ↦ irresolvable_dependency
              | bad_index ↦ invariant_violated
            ])
              ≢ out_of_fuel
        stepped (finished s') ran ih = λ h. cc
        stepped (more s') ran ih =
            let less = step-measure n (length pkgs) (length (graph pkgs)) s s' small ran in
            ih s' less.1 (omega arith)
        stepped irresolvable ran ih = λ h. cc
        stepped bad_index ran ih = λ h. cc

  started :
      (zero_deps : List String × List String) (path : String) (pkgs : Packages)
      → rounds sets
          (index_by_package_name pkgs)
          (fuel_for (length zero_deps.1))
          path
          pkgs
          (start sets zero_deps)
        ≢ out_of_fuel
  unfolding start flush
  started (next, queue) path pkgs =
      let n = length queue in
      rounds-ends (index_by_package_name pkgs) (fuel_for n) n path pkgs _ (omega arith)
        (omega (arith, weight-length (11 * n + 3) queue))

  -- The search for a build order ends for every list of packages, circular ones too: it never
  -- runs out of the rounds that the recursion allows for, which grow with the square of the list.
  pub get_build_order-ends :
      (path : String) (pkgs : Packages) → get_build_order sets path pkgs ≢ out_of_fuel
  unfolding get_build_order
  get_build_order-ends path pkgs =
      on_zero (collect_zero sets (index_by_package_name pkgs) (graph pkgs))
    where
      on_zero :
          (c : Option (List String × List String))
          → (if nat_beq (length pkgs) 0 then no_modules else (elim c as (λ _. Built sets) [
            | none ↦ invariant_violated
            | some zero_deps ↦
                rounds sets
                  (index_by_package_name pkgs)
                  (fuel_for (length zero_deps.1))
                  path
                  pkgs
                  (start sets zero_deps)
          ]))
            ≢ out_of_fuel
      on_zero none = ground arith
      on_zero (some zero_deps) = ground (arith, started zero_deps path pkgs)
