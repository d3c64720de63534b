-- ===== src/Repo/Configuration/Lookups.antt =====
-- Which repositories a list of names and tags finds (repo/conf.go, `FindAll`).
use sardis.Common.{
  not, ◌&&◌, ◌||◌, Option, none, some, ◌≡◌, refl, ap, List, [], ◌∷◌, ◌++◌, map, String,
  string_comparable, arith, eq_iff, eq_refl, if◌then◌else◌, Option-cases, inl, inr,
}
use sardis.Common.Maps.{load}
use sardis.Extern.Erc.{Erc}
use sardis.Extern.Sets.{Sets, member}
use sardis.Subexec.Filter.Counting.{AreDistinct}
use sardis.Repo.Configuration.{
  GitRepository, Configuration, Error, Indexes, at_tag, knows, rebuild_indexes, find_tagged,
  find_from, find_all,
}
use sardis.Repo.Configuration.Indexing.{AreKeyed, rebuild_indexes-AreKeyed}

abbrev pub repo_names : List GitRepository → List String
repo_names repos = map (λ rp. rp.name) repos

-- The names that an argument stands for: itself if a repository has it, and otherwise those of a tag.
abbrev meant : Indexes → String → List String
meant ix id = if knows ix id then id ∷ [] else at_tag id ix

abbrev pub all_meant : Indexes → List String → List String
all_meant ix [] = []
all_meant ix (id ∷ ids) = meant ix id ++ all_meant ix ids

member-append :
    (x : String) (xs ys : List String) → member x (xs ++ ys) ≡ (member x xs || member x ys)
member-append x [] ys = refl
member-append x (y ∷ xs) ys = ground (arith, member-append x xs ys)

module _ (sets : Sets) (ix : Indexes) (keyed : AreKeyed ix) where
  abbrev found : List String → sets.Set → List GitRepository
  found names seen = (find_tagged sets ix names seen).0

  find_tagged-cons-none :
      (n : String) (ns : List String) (seen : sets.Set)
      → load n ix.lookup ≡ none
      → (found (n ∷ ns) seen ≡ found ns (sets.add n seen).0)
        × ((find_tagged sets ix (n ∷ ns) seen).1 ≡ (find_tagged sets ix ns (sets.add n seen).0).1)
  unfolding find_tagged
  find_tagged-cons-none n ns seen h = ground (arith, h)

  find_tagged-cons-some :
      (n : String) (ns : List String) (seen : sets.Set) (rp : GitRepository)
      → load n ix.lookup ≡ some rp
      → (found (n ∷ ns) seen ≡ (
          if sets.check n seen
          then found ns (sets.add n seen).0
          else rp ∷ found ns (sets.add n seen).0))
        × ((find_tagged sets ix (n ∷ ns) seen).1 ≡ (find_tagged sets ix ns (sets.add n seen).0).1)
  unfolding find_tagged
  find_tagged-cons-some n ns seen rp h = rw (find_tagged, h) (ground (arith, sets.add-had n seen))

  -- The repositories that are found are those of the names that were not seen.
  member-found :
      (x : String) (ns : List String) (seen : sets.Set)
      → member x (repo_names (found ns seen))
        ≡ (not (sets.check x seen) && knows ix x && member x ns)
  unfolding find_tagged
  member-found x [] seen = ground arith
  member-found x (n ∷ ns) seen =
      let ih = member-found x ns (sets.add n seen).0 in
      elim (Option-cases (load n ix.lookup)) [
        | inl unknown ↦ ground (
          arith,
          (find_tagged-cons-none n ns seen unknown).0,
          ih,
          sets.check-add n x seen,
          eq_iff n x,
          unknown,
        )
        | inr (rp, known) ↦ ground (
          arith,
          (find_tagged-cons-some n ns seen rp known).0,
          ih,
          sets.check-add n x seen,
          eq_iff n x,
          eq_iff rp.name x,
          keyed n rp known,
          known,
        )
      ]

  -- What was seen after the loop.
  check-found :
      (x : String) (ns : List String) (seen : sets.Set)
      → sets.check x (find_tagged sets ix ns seen).1 ≡ (sets.check x seen || member x ns)
  unfolding find_tagged
  check-found x [] seen = ground arith
  check-found x (n ∷ ns) seen =
      let ih = check-found x ns (sets.add n seen).0 in
      elim (Option-cases (load n ix.lookup)) [
        | inl unknown ↦ ground (
          arith,
          ap (sets.check x) (find_tagged-cons-none n ns seen unknown).1,
          ih,
          sets.check-add n x seen,
        )
        | inr (rp, known) ↦ ground (
          arith,
          ap (sets.check x) (find_tagged-cons-some n ns seen rp known).1,
          ih,
          sets.check-add n x seen,
        )
      ]

  found-AreDistinct :
      (ns : List String) (seen : sets.Set) → AreDistinct (repo_names (found ns seen))
  unfolding find_tagged
  found-AreDistinct [] seen = tt
  found-AreDistinct (n ∷ ns) seen =
      let seen' = (sets.add n seen).0 in
      let ih = found-AreDistinct ns seen' in
      elim (Option-cases (load n ix.lookup)) [
        | inl unknown ↦ rw (find_tagged-cons-none n ns seen unknown).0 ih
        | inr (rp, known) ↦ ground (
          arith,
          (find_tagged-cons-some n ns seen rp known).0,
          ih,
          member-found rp.name ns seen',
          sets.check-add n rp.name seen,
          keyed n rp known,
          eq_refl n,
        )
      ]

  found-append :
      (xs ys : List String) (seen : sets.Set)
      → found (xs ++ ys) seen ≡ found xs seen ++ found ys (find_tagged sets ix xs seen).1
  unfolding find_tagged
  found-append [] ys seen = refl
  found-append (n ∷ xs) ys seen =
      let seen' = (sets.add n seen).0 in
      let ih = found-append xs ys seen' in
      elim (Option-cases (load n ix.lookup)) [
        | inl unknown ↦ ground (
          arith,
          (find_tagged-cons-none n (xs ++ ys) seen unknown).0,
          (find_tagged-cons-none n xs seen unknown).0,
          ap (found ys) (find_tagged-cons-none n xs seen unknown).1,
          ih,
        )
        | inr (rp, known) ↦ ground (
          arith,
          (find_tagged-cons-some n (xs ++ ys) seen rp known).0,
          (find_tagged-cons-some n xs seen rp known).0,
          ap (found ys) (find_tagged-cons-some n xs seen rp known).1,
          ih,
        )
      ]

  find_from-found :
      (ids : List String) (seen : sets.Set)
      → find_from sets ix ids seen ≡ found (all_meant ix ids) seen
  unfolding find_from find_tagged
  find_from-found [] seen = refl
  find_from-found (id ∷ ids) seen = elim (Option-cases (load id ix.lookup)) [
    | inl unknown ↦ ground (
      arith,
      unknown,
      find_from-found ids (find_tagged sets ix (at_tag id ix) seen).1,
      found-append (at_tag id ix) (all_meant ix ids) seen,
    )
    | inr (rp, known) ↦ ground (
      arith,
      known,
      find_from-found ids (sets.add id seen).0,
      keyed id rp known,
      sets.add-had id seen,
      (find_tagged-cons-some id (all_meant ix ids) seen rp known).0,
    )
  ]

-- With rebuilt indexes `FindAll` returns no repository twice, whatever names and tags are given, and
-- whichever of them overlap.
pub find_all-AreDistinct :
    (sets : Sets) (erc : Erc Error) (conf : Configuration) (ix : Indexes) (e : Option Error)
    (ids : List String)
    → rebuild_indexes sets erc conf ≡ some (ix, e)
    → AreDistinct (repo_names (find_all sets ix ids))
unfolding find_all
find_all-AreDistinct sets erc conf ix e ids built =
    let keyed = rebuild_indexes-AreKeyed sets erc conf ix e built in
    rw (find_from-found sets ix keyed ids sets.empty)
      (found-AreDistinct sets ix keyed (all_meant ix ids) sets.empty)

-- With rebuilt indexes `FindAll` returns exactly the known repositories that the arguments mean: an
-- argument means the repository of that name, and only where there is none those of the tag.
pub member-find_all :
    (sets : Sets) (erc : Erc Error) (conf : Configuration) (ix : Indexes) (e : Option Error)
    (ids : List String) (x : String)
    → rebuild_indexes sets erc conf ≡ some (ix, e)
    → member x (repo_names (find_all sets ix ids)) ≡ (knows ix x && member x (all_meant ix ids))
unfolding find_all
member-find_all sets erc conf ix e ids x built =
    let keyed = rebuild_indexes-AreKeyed sets erc conf ix e built in
    rw (find_from-found sets ix keyed ids sets.empty) (
      ground
        (arith, member-found sets ix keyed x (all_meant ix ids) sets.empty, sets.check-empty x))
