-- ===== src/Srv/Network.antt =====
-- srv/network.go: the hosts that the configuration knows. Errors are told apart by what they are
-- about. `Jasper`, which always panics, is left out.
use sardis.Common.{
  ℕ, Bool, not, Option, none, some, ◌≡◌, ◌≢◌, sym, ◌∙◌, ◌↔◌, ◌⊎◌, List, [], ◌∷◌, ◌++◌, map, String,
  string_comparable, ◌==◌, nat_beq, nat_beq_iff, arith, eq_iff, if◌then◌else◌, All,
}
use sardis.Extern.Erc.{Erc, when, resolve-eq-none_iff}
use sardis.Extern.Sets.{member}

pub record HostDefinition : Type 0 where
  pub name : String
  pub user : String
  pub hostname : String
  pub port : ℕ
  pub protocol : String
  pub sardis : Bool

pub data HostError : Type 0 where
  no_name no_hostname no_port bad_protocol no_user : HostError
  both : HostError → HostError → HostError

unfoldable pub network_join : List HostDefinition → List HostDefinition → List HostDefinition
network_join hosts more = hosts ++ more

-- `ByName`
unfoldable pub by_name : String → List HostDefinition → Option HostDefinition
by_name name [] = none
by_name name (h ∷ hosts) = let rest = by_name name hosts in if h.name == name then some h else rest

one_protocol : (s : String) → s ≡ "ssh" → s ≢ "jasper"
one_protocol s ssh jasper =
    let one : String = "ssh" in
    let other : String = "jasper" in
    let same : one ≡ other = sym ssh ∙ jasper in cc ((eq_iff one other).1 same)

module _ (erc : Erc HostError) where
  unfoldable pub host_validate : HostDefinition → Option HostError
  host_validate h = erc.resolve (
      when (h.name == "") no_name
      ∷ when (h.hostname == "") no_hostname
      ∷ when (nat_beq h.port 0) no_port
      ∷ when (not (member h.protocol ("ssh" ∷ "jasper" ∷ []))) bad_protocol
      ∷ (if h.protocol == "ssh" then when (h.user == "") no_user else none)
      ∷ [])

  unfoldable pub network_validate : List HostDefinition → Option HostError
  unfolding host_validate
  network_validate hosts = erc.resolve (map host_validate hosts)

  -- A host that can be used.
  abbrev IsUsable : HostDefinition → Type 0
  IsUsable h =
      (h.name ≢ "")
      × (h.hostname ≢ "")
      × (h.port ≢ 0)
      × ((h.protocol ≡ "jasper") ⊎ ((h.protocol ≡ "ssh") × (h.user ≢ "")))

  checks_iff :
      (h : HostDefinition)
      → All
          (λ o. o ≡ none)
          (when (h.name == "") no_name
            ∷ when (h.hostname == "") no_hostname
            ∷ when (nat_beq h.port 0) no_port
            ∷ when (not (member h.protocol ("ssh" ∷ "jasper" ∷ []))) bad_protocol
            ∷ (if h.protocol == "ssh" then when (h.user == "") no_user else none)
            ∷ [])
        ↔ IsUsable h
  checks_iff h = ground (
    arith,
    eq_iff h.name "",
    eq_iff h.hostname "",
    nat_beq_iff h.port 0,
    eq_iff "ssh" h.protocol,
    eq_iff "jasper" h.protocol,
    eq_iff h.protocol "ssh",
    eq_iff h.protocol "jasper",
    eq_iff h.user "",
    one_protocol h.protocol,
  )

  host_validate_iff : (h : HostDefinition) → (host_validate h ≡ none) ↔ IsUsable h
  unfolding host_validate
  host_validate_iff h =
      let checks = resolve-eq-none_iff erc _ in
      (λ e. (checks_iff h).0 (checks.0 e), λ u. checks.1 ((checks_iff h).1 u))

  all_iff :
      (hosts : List HostDefinition)
      → All (λ o. o ≡ none) (map host_validate hosts) ↔ All IsUsable hosts
  all_iff [] = (λ u. u, λ u. u)
  all_iff (h ∷ hosts) =
      let one = host_validate_iff h in
      let more = all_iff hosts in (λ p. (one.0 p.0, more.0 p.1), λ p. (one.1 p.0, more.1 p.1))

  -- A network is valid exactly if each host has a name, a host name and a port, and a protocol that
  -- is jasper, or ssh with a user.
  network_validate_iff :
      (hosts : List HostDefinition) → (network_validate hosts ≡ none) ↔ All IsUsable hosts
  unfolding network_validate
  network_validate_iff hosts =
      let checks = resolve-eq-none_iff erc (map host_validate hosts) in
      (λ e. (all_iff hosts).0 (checks.0 e), λ u. checks.1 ((all_iff hosts).1 u))
