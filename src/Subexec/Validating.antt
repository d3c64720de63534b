-- ===== src/Subexec/Validating.antt =====
-- subexec/subexec.go: validating the configuration of the commands. Looking up the sockets is left
-- out. Two groups are compared by their hosts' pointers, which a parameter does, and so is what the runtime decides
-- of the memory.
use sardis.Common.{Bool, Option, List, [], ◌∷◌}
use sardis.Extern.Erc.{Erc}
use sardis.Extern.System.{System}
use sardis.Subexec.Group.{Group}
use sardis.Subexec.Group.Validate.{Error, validate}
use sardis.Subexec.Configuration.{Configuration}
use sardis.Subexec.Aliases.{Memory, resolve_groups}

-- The loop over the groups: the changed ones, and what is pushed.
validate_groups : System → Erc Error → List Group → List Group × List (Option Error)
validate_groups sys erc [] = ([], [])
validate_groups sys erc (grp ∷ groups) =
    let (filled, err) = validate sys erc grp in
    let (rest, errs) = validate_groups sys erc groups in (filled ∷ rest, err ∷ errs)

-- `doValidate`
unfoldable pub operations_validate :
    (same_host : Group → Group → Bool)
    → Memory
    → System
    → Erc Error
    → Configuration
    → Configuration × Option Error
unfolding validate_groups
operations_validate same_host memory sys erc conf =
    let (groups, errs) = validate_groups sys erc conf.commands in
    let filled = record conf { commands = groups } in
    (record filled { commands = resolve_groups same_host memory sys filled }, erc.resolve errs)
