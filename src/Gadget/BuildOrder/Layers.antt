-- ===== src/Gadget/BuildOrder/Layers.antt =====
-- A build order puts every package behind its dependencies (tools/gadget/gendget.go).
use sardis.Common.{
  ℕ, true, not, ◌&&◌, some, ◌≡◌, refl, sym, subst, List, [], ◌∷◌, ◌++◌, append_assoc, append-nil,
  String, string_comparable, arith, All, nat_beq, length, Bool-cases, inl, inr,
}
use sardis.Common.Maps.{load}
use sardis.Extern.Sets.{Sets, member}
use sardis.Gadget.Packages.{PackageInfo, Packages, index_by_package_name, graph}
use sardis.Gadget.BuildOrder.{
  BuildOrder, Progress, more, built, sort_strings, is_empty, flush, flushed, pop_front, step,
  complete, fuel_for, start, get_build_order,
}
use sardis.Gadget.BuildOrder.Groups.{
  concat, concat-push, member-append, All-push, All-sort_strings, check-add_all, all-All,
}
use sardis.Gadget.BuildOrder.Visits.{
  Zeroed, none_left, independent, dependent, collect_zero-Zeroed, Visited, dropped, taken, put_back,
  visit-Visited,
}
use sardis.Gadget.BuildOrder.Rounds.{get_build_order-rounds, step-more, rounds-built}

module _ (index : List (String × PackageInfo)) where
  -- The package is known, and its dependencies are among these.
  abbrev Ready : List String → String → Type 0
  Ready before node =
      (info : PackageInfo) × (load node index ≡ some info)
      × All (λ dep. member dep before ≡ true) info.dependencies

  -- Each package of a group has all its dependencies in the groups before.
  abbrev pub Layered : List String → List (List String) → Type 0
  Layered before [] = Unit
  Layered before (g ∷ gs) = All (Ready before) g × Layered (before ++ g) gs

  Layered-push :
      (before : List String) (gs : List (List String)) (g : List String)
      → Layered before gs
      → All (Ready (before ++ concat gs)) g
      → Layered before (gs ++ g ∷ [])
  Layered-push before [] g _ h = (subst (λ l. All (Ready l) g) (append-nil before) h, tt)
  Layered-push before (k ∷ gs) g (ready, rest) h = (
    ready,
    Layered-push (before ++ k) gs g rest
        (subst (λ l. All (Ready l) g) (sym (append_assoc before k (concat gs))) h),
  )

  module _ (sets : Sets) where
    -- What holds before each round.
    abbrev Kept : Progress sets → Type 0
    Kept s =
        ((x : String) → sets.check x s.seen ≡ member x (concat s.build_order))
        × Layered [] s.build_order
        × All (Ready (concat s.build_order)) s.next

    flush-Kept : (s : Progress sets) → Kept s → Kept (flush sets s)
    unfolding flush
    flush-Kept s (agree, layered, ready) =
        let sorted = All-sort_strings (Ready (concat s.build_order)) s.next ready in
        (
          (λ x. rw (concat-push s.build_order (sort_strings s.next)) (
              ground (
                arith,
                check-add_all sets x (sort_strings s.next) s.seen,
                agree x,
                member-append x (concat s.build_order) (sort_strings s.next),
              ))),
          Layered-push [] s.build_order (sort_strings s.next) layered sorted,
          tt,
        )

    flushed-Kept : (s : Progress sets) → Kept s → Kept (flushed sets index s)
    unfolding flushed
    flushed-Kept s kept =
        elim (Bool-cases
          (nat_beq s.runs_since_progress (length s.queue) && not (is_empty s.next))) [
            | inl close ↦ rw close (flush-Kept s kept)
            | inr wait ↦ rw wait kept
          ]

    Visited-Kept :
        (node : String) (rest : List String) (s s' : Progress sets)
        → Kept s
        → Visited sets index node rest s s'
        → Kept s'
    Visited-Kept node rest s _ kept (dropped seen) = kept
    Visited-Kept node rest s _ (agree, layered, ready) (taken info new found deps) = (
      agree,
      layered,
      All-push (Ready (concat s.build_order)) s.next node ready
          (info, found, all-All sets s.seen info.dependencies (concat s.build_order) agree deps),
    )
    Visited-Kept node rest s _ kept (put_back new) = kept

    pop_front-Kept :
        (queue : List String) (s s' : Progress sets)
        → Kept s
        → pop_front sets index queue s ≡ more s'
        → Kept s'
    unfolding pop_front
    pop_front-Kept [] s s' kept h = absurd (ground arith)
    pop_front-Kept (node ∷ rest) s s' kept h =
        Visited-Kept node rest s s' kept (visit-Visited sets index node rest s s' h)

    step-Kept :
        (pkgs nodes : ℕ) (s s' : Progress sets)
        → Kept s
        → step sets index pkgs nodes s ≡ more s'
        → Kept s'
    step-Kept pkgs nodes s s' kept h =
        let t = flushed sets index s in
        pop_front-Kept t.queue t s' (flushed-Kept s kept) (step-more sets index pkgs nodes s s' h).1

    complete-Layered : (s : Progress sets) → Kept s → Layered [] (complete sets index s)
    unfolding complete
    complete-Layered s (agree, layered, ready) = elim (Bool-cases (is_empty s.next)) [
      | inl all_closed ↦ rw all_closed layered
      | inr left ↦ rw left (Layered-push [] s.build_order s.next layered ready)
    ]

    Zeroed-Ready :
        (nodes : List (String × List String)) (next queue : List String)
        → Zeroed sets index nodes next queue
        → All (Ready []) next
    Zeroed-Ready [] next queue none_left = tt
    Zeroed-Ready (n ∷ nodes) _ queue (independent info found no_deps rest) =
        ((info, found, rw no_deps tt), Zeroed-Ready nodes _ queue rest)
    Zeroed-Ready (n ∷ nodes) next _ (dependent rest) = Zeroed-Ready nodes next _ rest

    start-Kept :
        (zero_deps : List String × List String)
        → All (Ready []) zero_deps.0
        → Kept (start sets zero_deps)
    unfolding start flush
    start-Kept (next, queue) ready =
        flush-Kept
          (record {
            build_order = [];
            next = next;
            queue = queue;
            seen = sets.empty;
            runs_since_progress = 0;
          })
          (sets.check-empty, tt, ready)

-- In every order that is found, each package has all its dependencies in the groups before its
-- own, so that the groups can be built one after the other; the order is of the packages given.
pub get_build_order-Layered :
    (sets : Sets) (path : String) (pkgs : Packages) (bo : BuildOrder)
    → get_build_order sets path pkgs ≡ built bo
    → Layered (index_by_package_name pkgs) [] bo.order × (bo.packages ≡ pkgs)
get_build_order-Layered sets path pkgs bo h =
    let index = index_by_package_name pkgs in
    let (zero_deps, found, ran) = get_build_order-rounds sets path pkgs bo h in
    let ready =
      Zeroed-Ready index sets (graph pkgs) zero_deps.0 zero_deps.1
        (collect_zero-Zeroed sets index (graph pkgs) zero_deps found) in
    let (s, kept, _, is) =
      rounds-built sets index path pkgs (Kept index sets)
        (step-Kept index sets (length pkgs) (length (graph pkgs))) (fuel_for (length zero_deps.1))
        (start sets zero_deps) bo (start-Kept index sets zero_deps ready) ran in
    rw is (complete-Layered index sets s kept, refl)
