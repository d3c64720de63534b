-- ===== src/Application/Loading.antt =====
-- conf.go: reading a file of configurations, which may have one for each host. What the files hold
-- is a parameter.
use sardis.Common.{
  Bool, true, not, Option, none, some, List, map, String, string_comparable, if◌then◌else◌,
}
use sardis.Common.Maps.{load}
use sardis.Extern.System.{System}
use sardis.Sysmgmt.Links.{LinkDefinition}
use sardis.Application.{Configuration, migrate, join}

-- The map of local configurations may be nil, and so may each of them.
pub record ConfigurationFile : Type 0 where
  pub local : Option (List (String × Option Configuration))
  pub global : Option Configuration

pub data LoadError : Type 0 where
  missing unparsable no_base : String → LoadError

-- What decoding a file gives: the file as `ConfigurationFile`, and as a pointer to a
-- `Configuration`, which may be nil.
pub record FileSystem : Type 0 where
  pub exists : String → Bool
  pub unmarshal_file : String → Option ConfigurationFile
  pub unmarshal_configuration : String → Option (Option Configuration)

-- A configuration, an error, or a panic.
pub data Outcome : Type 0 where
  loaded : Configuration → Outcome
  failed : LoadError → Outcome
  panicked : Outcome

-- The configuration of a host; there is none under a name that is not in the map.
unfoldable pub local_of : String → List (String × Option Configuration) → Option Configuration
unfolding load
local_of host locals = elim (load host locals) [ none ↦ none | some lc ↦ lc ]

or_panic : Option Configuration → Outcome
or_panic none = panicked
or_panic (some conf) = loaded conf

abbrev mark_defined : LinkDefinition → LinkDefinition
mark_defined lnd = record lnd { defined = true }

-- The end of `readConfiguration`.
unfoldable pub finish : String → Outcome → Outcome
finish fn (loaded out) = loaded (record out {
  system = record out.system { links = map mark_defined out.system.links };
  original_path = fn;
})
finish fn (failed e) = failed e
finish fn panicked = panicked

module _ (sys : System) (fs : FileSystem) where
  abbrev parsed : String → Option (Option Configuration) → Outcome
  parsed fn none = failed (unparsable fn)
  parsed fn (some none) = panicked
  parsed fn (some (some out)) = loaded out

  -- The choice of `readConfiguration`; the last case of a local configuration without a global one
  -- is the panic that should be impossible.
  unfoldable pub choose_local : String → Option Configuration → Option Configuration → Outcome
  unfolding or_panic
  choose_local fn none (some global) = loaded global
  choose_local fn none none = failed (no_base fn)
  choose_local fn (some lc) (some global) = or_panic (join sys fs.exists global (some (migrate lc)))
  choose_local fn (some lc) none = panicked

  unfoldable pub choose : String → ConfigurationFile → Outcome
  unfolding choose_local local_of
  choose fn file = elim file.local [
    | none ↦ elim file.global [
      | some global ↦ loaded global
      | none ↦ parsed fn (fs.unmarshal_configuration fn)
    ]
    | some locals ↦ choose_local fn (local_of sys.hostname locals) file.global
  ]

  -- `readConfiguration`
  unfoldable pub read_configuration : String → Outcome
  unfolding choose finish
  read_configuration fn =
      if not (fs.exists fn) then failed (missing fn) else (elim (fs.unmarshal_file fn) [
        | none ↦ failed (unparsable fn)
        | some file ↦ finish fn (choose fn file)
      ])
