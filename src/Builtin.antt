-- ===== src/Builtin.antt =====
-- The program as this repository builds it: pkg/cmd/cmd.go imports the packages `allowed` and
-- `constraints`, which store their approvers in the shared registry, and pkg/internal/cmd/cmd.go
-- gives the registry's evaluators to the manager.
pub mod Sound
pub mod Admits
use cert_manager_approver_po.Common.{[], ◌∷◌, Outcome, ◌>>=◌}
use cert_manager_approver_po.Library.{Library}
use cert_manager_approver_po.Allowed.Interface.{allowed_approver}
use cert_manager_approver_po.Constraints.Interface.{constraints_approver}
use cert_manager_approver_po.Registry.{Registry, empty_registry, store}

module _ (library : Library) where
  -- The two `init` functions.
  unfoldable pub load_approvers : Outcome Registry
  load_approvers = do
    loaded ← store empty_registry (allowed_approver library ∷ [])
    store loaded (constraints_approver library ∷ [])
