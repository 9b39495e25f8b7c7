-- ===== src/Registry.antt =====
-- pkg/registry/registry.go: the store of approvers. Its lock lets one call run at a time, so a run of
-- the program is a sequence of these calls.
pub mod Unique
use cert_manager_approver_po.Common.{
  Bool, true, false, List, [], ◌∷◌, ◌++◌, map, Outcome, ok, panic, if◌then◌else◌, str_eq,
}
use cert_manager_approver_po.Approver.{Approver, Evaluator, Webhook, Reconciler}

pub record Registry : Type 0 where
  pub approvers : List Approver

-- The value of `Shared` before any package stores an approver.
abbrev pub empty_registry : Registry
empty_registry = record { approvers = [] }

-- The inner loop of `Store`: some approver to store has the name of the existing one.
unfoldable pub has_name_of : Approver → List Approver → Bool
has_name_of existing [] = false
has_name_of existing (to_store ∷ approvers) =
    if str_eq existing.name to_store.name then true else has_name_of existing approvers

-- The two loops of `Store`.
unfoldable pub has_conflict : List Approver → List Approver → Bool
has_conflict [] approvers = false
has_conflict (existing ∷ registered) approvers =
    if has_name_of existing approvers then true else has_conflict registered approvers

-- `Store`
unfoldable pub store : Registry → List Approver → Outcome Registry
store r approvers =
    if has_conflict r.approvers approvers
    then panic
    else ok (record { approvers = r.approvers ++ approvers })

-- `Evaluators`, `Webhooks` and `Reconcilers`
unfoldable pub evaluators : Registry → List Evaluator
evaluators r = map (λ (a : Approver). a.evaluator) r.approvers

unfoldable pub webhooks : Registry → List Webhook
webhooks r = map (λ (a : Approver). a.webhook) r.approvers

unfoldable pub reconcilers : Registry → List Reconciler
reconcilers r = map (λ (a : Approver). a.reconciler) r.approvers
