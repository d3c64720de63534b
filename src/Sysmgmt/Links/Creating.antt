-- ===== src/Sysmgmt/Links/Creating.antt =====
-- What creating a link leaves (sysmgmt/links.go).
use sardis.Common.{
  ℕ, Bool, true, false, Option, none, some, ◌≡◌, ◌⊎◌, String, string_comparable, arith, eq_iff,
}
use sardis.Extern.Erc.{Erc}
use sardis.Sysmgmt.Links.{LinkDefinition, LinkError, Files, replace_link, create_link_job}

-- The file system without following links: what the link at a path leads to, if there is one, and
-- whether two paths name one entry of a directory. Removing one entry leaves the links at others,
-- making directories leaves all of them, and no link is made where one is.
pub record Entries (fs : Files) : Type 0 where
  pub read_link : String → fs.World → Option String
  pub same_entry : String → String → fs.World → Bool
  pub read_link-remove :
      (p q : String) (w : fs.World)
      → same_entry p q w ≡ false
      → read_link q (fs.remove p w).0 ≡ read_link q w
  pub read_link-mkdir_all :
      (p q t : String) (w : fs.World)
      → read_link q w ≡ some t
      → read_link q (fs.mkdir_all p w).0 ≡ some t
  pub symlink_taken :
      (target path t : String) (w : fs.World)
      → read_link path w ≡ some t
      → (n : ℕ) × (fs.symlink target path w ≡ (w, some n))

module _ (fs : Files) (links : Entries fs) (erc : Erc LinkError) (lnd : LinkDefinition) where
  -- Nothing is done for a target that does not exist, nor for a link that is there and is not to be
  -- updated or leads where it should; and that is no error.
  create_link_job-idle :
      (w : fs.World)
      → (fs.exists lnd.target w ≡ false)
        ⊎ ((fs.exists lnd.path w ≡ true)
            × ((lnd.update ≡ false) ⊎ (fs.eval_symlinks lnd.path w ≡ some lnd.target)))
      → create_link_job fs erc lnd w ≡ (w, none)
  unfolding create_link_job replace_link
  create_link_job-idle w idle = ground (arith, idle, eq_iff lnd.target lnd.target)
