-- ===== src/Examples/Links.antt =====
-- Links on a file system that is a list of the paths that exist.
use sardis.Common.{
  ℕ, Bool, Bool-cases, Option-cases, inl, inr, Option, true, false, none, some, ◌≡◌, ◌≢◌, refl, ◌↔◌,
  List, [], ◌∷◌, String, string_comparable, ◌==◌, arith, eq_iff, if◌then◌else◌,
}
use sardis.Common.FilePath.{dir, base}
use sardis.Extern.Erc.{Erc, chain, join_all}
use sardis.Common.Maps.{load, store, load-store}
use sardis.Sysmgmt.Links.{
  LinkDefinition, LinkError, both, Files, link_validate, make_dir, make_plain, make_link,
  create_link_job,
}
use sardis.Sysmgmt.Links.Settings.{link_validate_iff}
use sardis.Sysmgmt.Links.Creating.{Entries}

abbrev errors : Erc LinkError
errors = chain both (λ a b. Unit {0}) (λ e. tt) (λ a b e h. tt) (λ a b e h. tt)

-- A file system without links among the directories: its paths, each with what its link leads to.
abbrev Tree : Type 0
Tree = List (String × Option String)

abbrev exists : String → Tree → Bool
exists p w = elim (load p w) [
  | none ↦ false
  | some (some t) ↦ elim (load t w) [ none ↦ false | some e ↦ true ]
  | some none ↦ true
]

abbrev eval_symlinks : String → Tree → Option String
eval_symlinks p w = elim (load p w) [ none ↦ none | some (some t) ↦ some t | some none ↦ some p ]

drop : String → Tree → Tree
drop p [] = []
drop p ((q, e) ∷ w) = let rest = drop p w in if q == p then rest else (q, e) ∷ rest

abbrev add : String → Option String → Tree → Tree × Option ℕ
add p e w = elim (load p w) [ none ↦ (store p e w, none) | some old ↦ (w, some 17) ]

abbrev files : Files
files = record {
  World = Tree;
  exists = exists;
  eval_symlinks = eval_symlinks;
  remove = λ p w. elim (load p w) [ none ↦ (w, some 2) | some e ↦ (drop p w, none) ];
  mkdir_all = λ p w. (if exists p w then w else (add p none w).0, none);
  symlink = λ t p w. add p (some t) w;
  sudo = λ cmds w. (w, none);
}

abbrev read_link : String → Tree → Option String
read_link p w = elim (load p w) [ none ↦ none | some e ↦ e ]

load-drop : (p q : String) (w : Tree) → (p == q) ≡ false → load q (drop p w) ≡ load q w
unfolding load drop
load-drop p q [] apart = refl
load-drop p q ((r, e) ∷ w) apart =
    ground (arith, apart, eq_iff r p, eq_iff r q, eq_iff p q, load-drop p q w apart)

remove_elsewhere :
    (p q : String) (w : Tree) → (p == q) ≡ false → read_link q (files.remove p w).0 ≡ read_link q w
remove_elsewhere p q w apart = elim (Option-cases (load p w)) [
  | inl missing ↦ ground (arith, missing)
  | inr (e, found) ↦ ground (arith, found, load-drop p q w apart)
]

load-add :
    (p q t : String) (w : Tree) → read_link q w ≡ some t → read_link q (add p none w).0 ≡ some t
load-add p q t w there = elim (Option-cases (load p w)) [
  | inl missing ↦ elim (Bool-cases (p == q)) [
    | inl same ↦ ground (arith, there, missing, eq_iff p q, same)
    | inr apart ↦ ground (arith, missing, load-store p q none w, apart, there)
  ]
  | inr (e, found) ↦ ground (arith, found, there)
]

mkdir_elsewhere :
    (p q t : String) (w : Tree)
    → read_link q w ≡ some t
    → read_link q (files.mkdir_all p w).0 ≡ some t
mkdir_elsewhere p q t w there = elim (Bool-cases (exists p w)) [
  | inl old ↦ rw old there
  | inr new ↦ rw new (load-add p q t w there)
]

symlink_refused :
    (target path t : String) (w : Tree)
    → read_link path w ≡ some t
    → (n : ℕ) × (files.symlink target path w ≡ (w, some n))
symlink_refused target path t w there = elim (Option-cases (load path w)) [
  | inl missing ↦ absurd (ground (arith, there, missing))
  | inr (e, found) ↦ (17, ground (arith, found))
]

abbrev entries : Entries files
entries = record {
  read_link = read_link;
  same_entry = λ p q w. p == q;
  read_link-remove = remove_elsewhere;
  read_link-mkdir_all = mkdir_elsewhere;
  symlink_taken = symlink_refused;
}

abbrev link : LinkDefinition
link = record {
  name = "name";
  path = "/link";
  target = "/target";
  update = true;
  require_sudo = false;
  defined = true;
  path_exists = true;
  target_exists = true;
}

abbrev there : Tree
there = ("/", none) ∷ ("/old", none) ∷ ("/link", some "/old") ∷ ("/target", none) ∷ []

abbrev target : String
target = "/target"

link_validate_iff_example :
    let name = if link.name == "" then dir link.path else link.name in
    (((link_validate errors link).1 ≡ none) ↔ (target ≢ ""))
    × ((link_validate errors link).0 ≡ (
        if link.path == ""
        then record link { name = dir name; path = base name }
        else record link { name = name }))
    × ((link_validate errors link).0.name ≢ "")
    × ((link_validate errors link).0.path ≢ "")
link_validate_iff_example = link_validate_iff errors link

abbrev old : String
old = "/old"

-- A link that is not there is made.
made_test : (create_link_job files errors link (("/target", none) ∷ [])).1 ≡ none
unfolding create_link_job make_link make_plain make_dir load store join_all dir
made_test = refl
