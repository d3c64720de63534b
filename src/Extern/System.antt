-- ===== src/Extern/System.antt =====
-- What the operating system, jasper's path helpers and fun's map type give to subexec.
use sardis.Common.{Option, none, some, ◌≡◌, refl, List, String, string_comparable}
use sardis.Common.Maps.{load, store, load-store}
use sardis.Common.{[], ◌∷◌, arith}

abbrev pub or_else : Option String → Option String → Option String
or_else none d = d
or_else (some v) d = some v

-- What `os.Stat` tells of a path: that nothing is there, another error, or what it leads to.
pub data Entry : Type 0 where
  absent unreadable directory other : Entry

pub record System : Type 0 where
  -- `util.GetHostname()` and `util.GetHomeDir()`
  pub hostname : String
  pub home_dir : String
  -- `jutil.TryExpandHomedir`
  pub try_expand_homedir : String → String
  -- `stw.Map.Extend` with the entries of a second map, which replace those of the first.
  pub extend : List (String × String) → List (String × String) → List (String × String)
  pub load-extend :
      (k : String) (m n : List (String × String))
      → load k (extend m n) ≡ or_else (load k n) (load k m)

-- Storing the entries of the second map one by one, the last of them first.
pub store_all : List (String × String) → List (String × String) → List (String × String)
store_all m [] = m
store_all m ((k, v) ∷ n) = store k v (store_all m n)

pub load-store_all :
    (k : String) (m n : List (String × String))
    → load k (store_all m n) ≡ or_else (load k n) (load k m)
unfolding store_all load
load-store_all k m [] = refl
load-store_all k m ((j, v) ∷ n) =
    ground (arith, load-store j k v (store_all m n), load-store_all k m n)

abbrev pub plain_system : System
plain_system = record {
  hostname = "host";
  home_dir = "/home/user";
  try_expand_homedir = λ s. s;
  extend = store_all;
  load-extend = load-store_all;
}
