-- ===== src/Application/Migrating.antt =====
-- Migrating a configuration a second time (conf.go).
use sardis.Common.{Option, none, some, ◌≡◌, List, [], ◌∷◌, append-nil}
use sardis.Srv.Network.{HostDefinition}
use sardis.Srv.Settings.{Settings}
use sardis.Application.{Configuration, migrate}

-- A second round changes nothing, by whether there are settings and old hosts.
migrate-again :
    (settings : Option Settings) (hosts : List HostDefinition) (conf : Configuration)
    → let once = migrate (record conf { settings = settings; network_compat = hosts }) in
      migrate once ≡ once
unfolding migrate
migrate-again none [] conf = simp append-nil
migrate-again none (h ∷ hosts) conf = simp append-nil
migrate-again (some s) hosts conf = simp append-nil

-- Migrating twice is the same as migrating once.
pub migrate-migrate : (conf : Configuration) → migrate (migrate conf) ≡ migrate conf
migrate-migrate conf = migrate-again conf.settings conf.network_compat conf
