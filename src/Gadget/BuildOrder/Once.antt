-- ===== src/Gadget/BuildOrder/Once.antt =====
-- A build order has every package exactly once (tools/gadget/gendget.go).
use sardis.Common.{
  ℕ, ◌+◌, ◌≤◌, true, false, not, ◌&&◌, ◌≡◌, refl, sym, ap, ◌∙◌, List, [], ◌∷◌, ◌++◌, map,
  append-nil, String, string_comparable, arith, eq_refl, if◌then◌else◌, nat_beq, length,
  length-append, length-map, Bool-cases, inl, inr,
}
use sardis.Extern.Sets.{Sets, member}
use sardis.Gadget.Packages.{PackageInfo, Packages, index_by_package_name, graph}
use sardis.Gadget.BuildOrder.{
  BuildOrder, Progress, more, built, sort_strings, is_empty, flush, flushed, pop_front, step,
  complete, fuel_for, start, get_build_order,
}
use sardis.Gadget.BuildOrder.Groups.{concat, concat-push, member-append, check-add_all}
use sardis.Gadget.BuildOrder.Counts.{
  occurs, occurs-append, member-occurs, occurs-length, occurs-sort_strings, length-sort_strings,
  len-add_all,
}
use sardis.Gadget.BuildOrder.Visits.{
  Zeroed, none_left, independent, dependent, collect_zero-Zeroed, Visited, dropped, taken, put_back,
  visit-Visited,
}
use sardis.Gadget.BuildOrder.Rounds.{get_build_order-rounds, step-more, rounds-built, stops}

module _ (sets : Sets) (index : List (String × PackageInfo)) (names : List String)
    (once : (x : String) → occurs x names ≤ 1) where
  -- What holds before each round: every name is in the order, in the next group or in the queue.
  record Kept (s : Progress sets) : Type 0 where
    agree : (x : String) → sets.check x s.seen ≡ member x (concat s.build_order)
    split :
        (x : String)
        → occurs x (concat s.build_order) + occurs x s.next + occurs x s.queue ≡ occurs x names
    size : sets.len s.seen ≡ length (concat s.build_order)
    total : length (concat s.build_order) + length s.next + length s.queue ≡ length names

  flush-Kept : (s : Progress sets) → Kept s → Kept (flush sets s)
  unfolding flush
  flush-Kept s k =
      let done = concat s.build_order in
      let ns = sort_strings s.next in
      let same = occurs-sort_strings in
      let new : (x : String) → 1 ≤ occurs x ns → sets.check x s.seen ≡ false = λ x there.
        elim (Bool-cases (sets.check x s.seen)) [
          | inl old ↦ absurd (
              omega (
                arith,
                member-occurs x done (sym (k.agree x) ∙ old),
                k.split x,
                once x,
                occurs-sort_strings x s.next,
              ))
          | inr fresh ↦ fresh
        ] in
      record {
        agree = λ x.
            rw (concat-push s.build_order ns)
              (ground (arith, check-add_all sets x ns s.seen, k.agree x, member-append x done ns));
        split = λ x.
            rw (concat-push s.build_order ns)
              (omega (arith, occurs-append x done ns, occurs-sort_strings x s.next, k.split x));
        size = rw (concat-push s.build_order ns) (
            omega (
              arith,
              length-append {0} done ns,
              k.size,
              len-add_all sets ns s.seen
                  (λ x. omega (arith, k.split x, once x, occurs-sort_strings x s.next)) new,
            ));
        total =
            rw (concat-push s.build_order ns)
              (omega (arith, length-append {0} done ns, length-sort_strings s.next, k.total));
      }

  Visited-Kept :
      (node : String) (rest : List String) (s s' : Progress sets)
      → s.queue ≡ node ∷ rest
      → Kept s
      → Visited sets index node rest s s'
      → Kept s'
  Visited-Kept node rest s _ front k (dropped seen) = absurd (
      ground (
        arith,
        member-occurs node (concat s.build_order) (sym (k.agree node) ∙ seen),
        eq_refl node,
        k.split node,
        once node,
        front,
      ))
  Visited-Kept node rest s _ front k (taken info new found deps) = record {
    agree = k.agree;
    split = λ x. ground (arith, k.split x, occurs-append x s.next (node ∷ []), front);
    size = k.size;
    total = ground (arith, k.total, length-append s.next (node ∷ []), front);
  }
  Visited-Kept node rest s _ front k (put_back new) = record {
    agree = k.agree;
    split = λ x. ground (arith, k.split x, occurs-append x rest (node ∷ []), front);
    size = k.size;
    total = ground (arith, k.total, length-append rest (node ∷ []), front);
  }

  flushed-Kept : (s : Progress sets) → Kept s → Kept (flushed sets index s)
  unfolding flushed
  flushed-Kept s k =
      elim (Bool-cases (nat_beq s.runs_since_progress (length s.queue) && not (is_empty s.next))) [
        | inl close ↦ rw close (flush-Kept s k)
        | inr wait ↦ rw wait k
      ]

  pop_front-Kept :
      (queue : List String) (s s' : Progress sets)
      → s.queue ≡ queue
      → Kept s
      → pop_front sets index queue s ≡ more s'
      → Kept s'
  unfolding pop_front
  pop_front-Kept [] s s' front k h = absurd (ground arith)
  pop_front-Kept (node ∷ rest) s s' front k h =
      Visited-Kept node rest s s' front k (visit-Visited sets index node rest s s' h)

  step-Kept :
      (pkgs nodes : ℕ) (s s' : Progress sets)
      → Kept s
      → step sets index pkgs nodes s ≡ more s'
      → Kept s'
  step-Kept pkgs nodes s s' k h =
      let t = flushed sets index s in
      pop_front-Kept t.queue t s' refl (flushed-Kept s k) (step-more sets index pkgs nodes s s' h).1

  complete-concat :
      (s : Progress sets) → concat (complete sets index s) ≡ concat s.build_order ++ s.next
  unfolding complete
  complete-concat s = on_next s.next
    where
      on_next :
          (next : List String)
          → concat (if is_empty next then s.build_order else s.build_order ++ next ∷ [])
            ≡ concat s.build_order ++ next
      on_next [] = sym (append-nil (concat s.build_order))
      on_next (n ∷ next) = concat-push s.build_order (n ∷ next)

  -- Nothing waits where the loop ends.
  stops-queue :
      (s : Progress sets)
      → Kept s
      → stops sets index (length names) (length names) s ≡ true
      → length s.queue ≡ 0
  stops-queue s k h = ground (arith, k.total, k.size, h, is_empty-length s.queue)
    where
      is_empty-length : (xs : List String) → is_empty xs ≡ true → length xs ≡ 0
      is_empty-length [] h = refl
      is_empty-length (x ∷ xs) h = cc

  complete-occurs :
      (s : Progress sets) (x : String)
      → Kept s
      → stops sets index (length names) (length names) s ≡ true
      → occurs x (concat (complete sets index s)) ≡ occurs x names
  complete-occurs s x k h = rw (complete-concat s) (
      omega (
        arith,
        occurs-append x (concat s.build_order) s.next,
        k.split x,
        occurs-length x s.queue,
        stops-queue s k h,
      ))

  -- The first loop leaves every name in one of its two lists.
  Zeroed-split :
      (x : String) (nodes : List (String × List String)) (next queue : List String)
      → Zeroed sets index nodes next queue
      → (occurs x next + occurs x queue ≡ occurs x (map (λ n. n.0) nodes))
        × (length next + length queue ≡ length nodes)
  Zeroed-split x [] _ _ none_left = (omega arith, omega arith)
  Zeroed-split x ((node, edges) ∷ nodes) (_ ∷ next) queue (independent info found no_deps rest) =
      let ih = Zeroed-split x nodes next queue rest in ground (arith, ih)
  Zeroed-split x ((node, edges) ∷ nodes) next (_ ∷ queue) (dependent rest) =
      let ih = Zeroed-split x nodes next queue rest in ground (arith, ih)

  start-Kept :
      (nodes : List (String × List String)) (zero_deps : List String × List String)
      → map (λ n. n.0) nodes ≡ names
      → Zeroed sets index nodes zero_deps.0 zero_deps.1
      → Kept (start sets zero_deps)
  unfolding start flush
  start-Kept nodes (next, queue) same zeroed =
      flush-Kept
        (record {
          build_order = [];
          next = next;
          queue = queue;
          seen = sets.empty;
          runs_since_progress = 0;
        })
        (record {
          agree = sets.check-empty;
          split =
              λ x. omega (arith, (Zeroed-split x nodes next queue zeroed).0, ap (occurs x) same);
          size = sets.len-empty;
          total = omega (
            arith,
            (Zeroed-split "" nodes next queue zeroed).1,
            length-map (λ (n : String × List String). n.0) nodes,
            ap length same,
          );
        })

abbrev pub package_names : Packages → List String
package_names pkgs = map (λ info. info.package_name) pkgs

graph-names : (pkgs : Packages) → map (λ n. n.0) (graph pkgs) ≡ package_names pkgs
unfolding graph
graph-names [] = refl
graph-names (info ∷ pkgs) = ap (◌∷◌ info.package_name) (graph-names pkgs)

-- Where the packages have different names, every order that is found has each of them exactly
-- once, and nothing else.
pub get_build_order-occurs :
    (sets : Sets) (path : String) (pkgs : Packages) (bo : BuildOrder)
    → ((x : String) → occurs x (package_names pkgs) ≤ 1)
    → get_build_order sets path pkgs ≡ built bo
    → (x : String) → occurs x (concat bo.order) ≡ occurs x (package_names pkgs)
get_build_order-occurs sets path pkgs bo once h x =
    let index = index_by_package_name pkgs in
    let names = package_names pkgs in
    let (zero_deps, found, ran) = get_build_order-rounds sets path pkgs bo h in
    let zeroed = collect_zero-Zeroed sets index (graph pkgs) zero_deps found in
    let (s, kept, ends, is) =
      rounds-built sets index path pkgs (Kept sets index names once)
        (step-Kept sets index names once (length pkgs) (length (graph pkgs)))
        (fuel_for (length zero_deps.1)) (start sets zero_deps) bo
        (start-Kept sets index names once (graph pkgs) zero_deps (graph-names pkgs) zeroed) ran in
    let nodes : length (graph pkgs) ≡ length names =
      sym (length-map (λ (n : String × List String). n.0) (graph pkgs))
      ∙ ap length (graph-names pkgs) in
    let all_pkgs : length pkgs ≡ length names =
      sym (length-map (λ (i : PackageInfo). i.package_name) pkgs) in
    rw is (complete-occurs sets index names once s x kept (ground (arith, ends, nodes, all_pkgs)))
