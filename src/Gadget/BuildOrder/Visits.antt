-- ===== src/Gadget/BuildOrder/Visits.antt =====
-- What a visit and the first loop of `GetBuildOrder` do to the packages (tools/gadget/gendget.go).
use sardis.Common.{
  string_comparable, ◌+◌, all, subst, Bool, true, false, ◌&&◌, Option, none, some, ◌≡◌, refl, List,
  [], ◌∷◌, ◌++◌, String, arith, if◌then◌else◌, Bool-cases, inl, inr,
}
use sardis.Common.Maps.{load}
use sardis.Extern.Sets.{Sets}
use sardis.Gadget.Packages.{PackageInfo}
use sardis.Gadget.BuildOrder.{Progress, Step, more, bad_index, is_empty, collect_zero, visit}

module _ (sets : Sets) where
  module _ (index : List (String × PackageInfo)) (node : String) (rest : List String)
      (s : Progress sets) where
    -- A visit drops a package that was seen, takes it, or puts it back.
    pub data Visited : Progress sets → Type 0 where
      dropped : sets.check node s.seen ≡ true → Visited (record s { queue = rest })
      taken :
          (info : PackageInfo)
          → sets.check node s.seen ≡ false
          → load node index ≡ some info
          → all (λ dep. sets.check dep s.seen) info.dependencies ≡ true
          → Visited (record s { queue = rest; next = s.next ++ node ∷ []; runs_since_progress = 0 })
      put_back :
          sets.check node s.seen ≡ false
          → Visited (record s {
            queue = rest ++ node ∷ [];
            runs_since_progress = s.runs_since_progress + 1;
          })

    pub visit-Visited : (s' : Progress sets) → visit sets index node rest s ≡ more s' → Visited s'
    unfolding visit
    visit-Visited s' = on_seen (sets.check node s.seen) refl (load node index) refl
      where
        on_info :
            (info : PackageInfo) (b : Bool)
            → sets.check node s.seen ≡ false
            → load node index ≡ some info
            → all (λ dep. sets.check dep s.seen) info.dependencies ≡ b
            → (if b
                then more
                    (record s { queue = rest; next = s.next ++ node ∷ []; runs_since_progress = 0 })
                else more (record s {
                  queue = rest ++ node ∷ [];
                  runs_since_progress = s.runs_since_progress + 1;
                }))
              ≡ more s'
            → Visited s'
        on_info info true new found deps h =
            subst Visited (ground arith) (taken info new found deps)
        on_info info false new found deps h = subst Visited (ground arith) (put_back new)

        on_seen :
            (b : Bool)
            → sets.check node s.seen ≡ b
            → (o : Option PackageInfo) → load node index ≡ o
            → (if b then more (record s { queue = rest }) else (elim o as (λ _. Step sets) [
              | none ↦ bad_index
              | some info ↦
                  if all (λ dep. sets.check dep s.seen) info.dependencies
                  then more (record s {
                    queue = rest;
                    next = s.next ++ node ∷ [];
                    runs_since_progress = 0;
                  })
                  else more (record s {
                    queue = rest ++ node ∷ [];
                    runs_since_progress = s.runs_since_progress + 1;
                  })
            ]))
              ≡ more s'
            → Visited s'
        on_seen true old o found h = subst Visited (ground arith) (dropped old)
        on_seen false new none found h = absurd (ground arith)
        on_seen false new (some info) found h =
            on_info info (all (λ dep. sets.check dep s.seen) info.dependencies) new found refl h

  module _ (index : List (String × PackageInfo)) where
    -- How the first loop splits the nodes.
    pub data Zeroed : List (String × List String) → List String → List String → Type 0 where
      none_left : Zeroed [] [] []
      independent :
          {node : String} {edges : List String} {nodes : List (String × List String)}
          {next queue : List String} (info : PackageInfo)
          → load node index ≡ some info
          → info.dependencies ≡ []
          → Zeroed nodes next queue
          → Zeroed ((node, edges) ∷ nodes) (node ∷ next) queue
      dependent :
          {node : String} {edges : List String} {nodes : List (String × List String)}
          {next queue : List String}
          → Zeroed nodes next queue
          → Zeroed ((node, edges) ∷ nodes) next (node ∷ queue)

    empty_of : (xs : List String) → is_empty xs ≡ true → xs ≡ []
    empty_of [] h = refl
    empty_of (x ∷ xs) h = cc

    Zeroed-cons :
        (node : String) (edges : List String) (nodes : List (String × List String))
        (o : Option PackageInfo) (c : Option (List String × List String))
        (r : List String × List String)
        → load node index ≡ o
        → ((r' : List String × List String) → c ≡ some r' → Zeroed nodes r'.0 r'.1)
        → (elim o as (λ _. Option (List String × List String)) [
          | none ↦ none
          | some info ↦ elim c as (λ _. Option (List String × List String)) [
            | none ↦ none
            | some (next, queue) ↦
                if is_empty edges && is_empty info.dependencies
                then some (node ∷ next, queue)
                else some (next, node ∷ queue)
          ]
        ])
          ≡ some r
        → Zeroed ((node, edges) ∷ nodes) r.0 r.1
    Zeroed-cons node edges nodes none c r found ih h = absurd (ground arith)
    Zeroed-cons node edges nodes (some info) none r found ih h = absurd (ground arith)
    Zeroed-cons node edges nodes (some info) (some (next, queue)) r found ih h =
        elim (Bool-cases (is_empty edges && is_empty info.dependencies)) [
          | inl free ↦
              let no_deps = empty_of info.dependencies (ground arith) in
              let same : (node ∷ next, queue) ≡ r = ground (arith, free, h) in
              subst (λ q. Zeroed ((node, edges) ∷ nodes) q.0 q.1) same
                (independent info found no_deps (ih (next, queue) refl))
          | inr bound ↦
              let same : (next, node ∷ queue) ≡ r = ground (arith, bound, h) in
              subst (λ q. Zeroed ((node, edges) ∷ nodes) q.0 q.1) same
                (dependent (ih (next, queue) refl))
        ]

    pub collect_zero-Zeroed :
        (nodes : List (String × List String)) (r : List String × List String)
        → collect_zero sets index nodes ≡ some r
        → Zeroed nodes r.0 r.1
    unfolding collect_zero
    collect_zero-Zeroed [] r h =
        let same : ([], []) ≡ r = ground (arith, h) in subst (λ q. Zeroed [] q.0 q.1) same none_left
    collect_zero-Zeroed ((node, edges) ∷ nodes) r h =
        Zeroed-cons node edges nodes (load node index) (collect_zero sets index nodes) r refl
          (collect_zero-Zeroed nodes) h
