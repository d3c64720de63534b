-- ===== src/Sysmgmt/Links/Settings.antt =====
-- What `Validate` makes of a link (sysmgmt/links.go).
use sardis.Common.{
  false, none, ◌≡◌, ◌≢◌, refl, ◌∙◌, ◌↔◌, Bool-cases, inl, inr, String, string_comparable, ◌==◌,
  arith, if◌then◌else◌, eq_iff,
}
use sardis.Common.FilePath.{dir, base, dir_nonempty, base_nonempty}
use sardis.Extern.Erc.{Erc, when, resolve-eq-none_iff}
use sardis.Sysmgmt.Links.{LinkDefinition, LinkError, no_target, fill_name, fill_path, link_validate}

differs : (s : String) → s ≢ "" → (s == "") ≡ false
differs s h = ground (arith, eq_iff s "")

target_iff : (target : String) → (when (target == "") no_target ≡ none) ↔ (target ≢ "")
target_iff target = ground (arith, eq_iff target "")

fill_name-quiet :
    (lnd : LinkDefinition) → ((fill_name lnd).1 ≡ none) × ((fill_name lnd).0.name ≢ "")
unfolding fill_name
fill_name-quiet lnd = elim (Bool-cases (lnd.name == "")) [
  | inl empty ↦
      rw (empty, differs (dir lnd.path) (dir_nonempty lnd.path)) (refl, dir_nonempty lnd.path)
  | inr named ↦ rw named (refl, ground (arith, eq_iff lnd.name ""))
]

fill_path-quiet :
    (lnd : LinkDefinition)
    → lnd.name ≢ ""
    → ((fill_path lnd).1 ≡ none) × ((fill_path lnd).0.name ≢ "") × ((fill_path lnd).0.path ≢ "")
unfolding fill_path
fill_path-quiet lnd named = elim (Bool-cases (lnd.path == "")) [
  | inl empty ↦
      let b = differs (base lnd.name) (base_nonempty lnd.name) in
      let d = differs (dir lnd.name) (dir_nonempty lnd.name) in
      rw (empty, b, d) (refl, dir_nonempty lnd.name, base_nonempty lnd.name)
  | inr placed ↦ rw placed (refl, named, ground (arith, eq_iff lnd.path ""))
]

-- What the link is called: by its name, or else by the directory of its path.
abbrev pub called : LinkDefinition → String
called lnd = if lnd.name == "" then dir lnd.path else lnd.name

-- The link with its name, or, if it has no path, with that name's last part as its path and the rest
-- as its name.
abbrev pub completed : LinkDefinition → LinkDefinition
completed lnd =
    if lnd.path == ""
    then record lnd { name = dir (called lnd); path = base (called lnd) }
    else record lnd { name = called lnd }

fill_name-called : (lnd : LinkDefinition) → (fill_name lnd).0 ≡ record lnd { name = called lnd }
unfolding fill_name
fill_name-called lnd = elim (Bool-cases (lnd.name == "")) [
  | inl empty ↦ rw (empty, differs (dir lnd.path) (dir_nonempty lnd.path)) refl
  | inr named ↦ rw named refl
]

fill_path-cut :
    (lnd : LinkDefinition)
    → (fill_path lnd).0
      ≡ (if lnd.path == "" then record lnd { path = base lnd.name; name = dir lnd.name } else lnd)
unfolding fill_path
fill_path-cut lnd = elim (Bool-cases (lnd.path == "")) [
  | inl empty ↦
      let b = differs (base lnd.name) (base_nonempty lnd.name) in
      let d = differs (dir lnd.name) (dir_nonempty lnd.name) in rw (empty, b, d) refl
  | inr placed ↦ rw placed refl
]

fill_path-fill_name : (lnd : LinkDefinition) → (fill_path (fill_name lnd).0).0 ≡ completed lnd
fill_path-fill_name lnd = fill_path-cut (fill_name lnd).0 ∙ rw (fill_name-called lnd) refl

module _ (erc : Erc LinkError) (lnd : LinkDefinition) where
  -- A link is valid exactly if it has a target, whatever else it lacks. A missing name becomes the
  -- directory of the path. Then a missing path becomes the last part of the name, and the name is cut
  -- to its directory. Nothing else changes, and neither is empty afterwards.
  pub link_validate_iff :
      let name = if lnd.name == "" then dir lnd.path else lnd.name in
      (((link_validate erc lnd).1 ≡ none) ↔ (lnd.target ≢ ""))
      × ((link_validate erc lnd).0 ≡ (
          if lnd.path == ""
          then record lnd { name = dir name; path = base name }
          else record lnd { name = name }))
      × ((link_validate erc lnd).0.name ≢ "")
      × ((link_validate erc lnd).0.path ≢ "")
  unfolding link_validate
  link_validate_iff =
      let named = fill_name-quiet lnd in
      let placed = fill_path-quiet (fill_name lnd).0 named.1 in
      (
        (
          λ h. (target_iff lnd.target).0 ((resolve-eq-none_iff erc _).0 h).0,
          λ h.
              (resolve-eq-none_iff erc _).1
                ((target_iff lnd.target).1 h, (named.0, (placed.0, tt))),
        ),
        fill_path-fill_name lnd,
        placed.1,
        placed.2,
      )
