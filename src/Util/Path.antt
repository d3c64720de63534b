-- ===== src/Util/Path.antt =====
-- util/path.go: paths that are written with a tilde for the home directory. Looking up files and
-- sockets is not modelled here.
use Prim.Native.Char.{code}
use Prim.Native.String.{[], ◌∷◌}
use sardis.Common.{not, ◌&&◌, List, [], ◌∷◌, String, string_comparable, nat_beq, if◌then◌else◌}
use sardis.Common.Text.{has_prefix, replace_first}
use sardis.Common.FilePath.{join_path, trim_space}
use sardis.Extern.System.{System}

-- `Apply`
unfoldable pub apply {ℓ} : {A : Type ℓ} → (A → A) → List A → List A
apply fn [] = []
apply fn (x ∷ xs) = fn x ∷ apply fn xs

module _ (sys : System) where
  -- A tilde that another name follows is ambiguous, and kept.
  after_tilde : String → String → String
  after_tilde whole [] = join_path sys.home_dir ""
  after_tilde whole (c ∷ s) =
      let rest : String = c ∷ s in
      if not (nat_beq (code c) b'/') && not (nat_beq (code c) b'\\')
      then whole
      else join_path sys.home_dir rest

  expand_trimmed : String → String
  unfolding after_tilde join_path
  expand_trimmed [] = ""
  expand_trimmed (c ∷ s) =
      let whole : String = c ∷ s in
      if not (nat_beq (code c) b'~') then whole else after_tilde whole s

  -- `TryExpandHomeDir`
  unfoldable pub try_expand_home_dir : String → String
  unfolding expand_trimmed trim_space
  try_expand_home_dir path = expand_trimmed (trim_space path)

  unfoldable pub try_expand_home_dirs : List String → List String
  unfolding try_expand_home_dir apply
  try_expand_home_dirs paths = apply try_expand_home_dir paths

  -- `TryCollapseHomeDir`
  unfoldable pub try_collapse_home_dir : String → String
  unfolding has_prefix replace_first
  try_collapse_home_dir path =
      if has_prefix path sys.home_dir then replace_first path sys.home_dir "~" else path
