-- ===== src/Controllers/Policies.antt =====
-- pkg/internal/controllers/certificaterequestpolicies.go: the controller that keeps the Ready condition
-- of each policy.
pub mod Conditions
pub mod Requeue
pub mod Decides
pub mod Errors
use cert_manager_approver_po.Common.{
  String, ℤ, pos, lt_ℤ, Bool, true, false, not, ◌&&◌, ◌||◌, Option, none, some, List, [], ◌∷◌, ◌++◌,
  Outcome, ok, err, panic, Error, ◌>>=◌, wrap, if◌then◌else◌, str_eq, ◌+++◌,
}
use cert_manager_approver_po.Field.{ErrorList}
use cert_manager_approver_po.Policy.{Condition, Status, CertificateRequestPolicy, condition_ready}
use cert_manager_approver_po.Approver.{
  ReconcileResult, no_result, ReconcilerReadyResponse, Reconciler,
}
use cert_manager_approver_po.Library.{Library}
use cert_manager_approver_po.Controllers.Patch.{
  NamespacedName, Effect, Reconciled, StatusPatch, PatchObject, ApplyPatch, Client, generate_patch,
  reconcile_with,
}

-- `cr.Requeue || cr.RequeueAfter > 0`
abbrev pub wants_requeue : ReconcileResult → Bool
wants_requeue r = r.requeue || lt_ℤ (pos 0) r.requeue_after

-- The requeue options after one more response.
unfoldable pub merge_result : ReconcileResult → ReconcileResult → ReconcileResult
merge_result result response =
    if wants_requeue response
    then record {
      requeue = true;
      requeue_after =
          if not result.requeue || lt_ℤ response.requeue_after result.requeue_after
          then response.requeue_after
          else result.requeue_after;
    }
    else result

-- The local variables `result`, `ready` and `el`.
pub record Readiness : Type 0 where
  pub result : ReconcileResult
  pub ready : Bool
  pub errors : ErrorList

-- The body of the loop over the reconcilers, after the call.
abbrev pub add_response : Readiness → ReconcilerReadyResponse → Readiness
add_response r response = record {
  result = merge_result r.result response.result;
  ready = if not response.ready then false else r.ready;
  errors = r.errors ++ response.errors;
}

-- The loop over the reconcilers.
unfoldable pub check_reconcilers :
    String → List Reconciler → CertificateRequestPolicy → Readiness → Outcome Readiness
check_reconcilers failure [] policy r = ok r
check_reconcilers failure (reconciler ∷ reconcilers) policy r = do
  response ← wrap failure (reconciler.ready policy)
  check_reconcilers failure reconcilers policy (add_response r response)

abbrev pub initial : Readiness
initial = record { result = no_result; ready = true; errors = [] }

-- The condition that takes the place of an existing one.
abbrev pub replacement : Condition → Condition → Condition
replacement existing condition =
    if str_eq existing.status condition.status
    then record condition { last_transition_time = existing.last_transition_time }
    else condition

-- The loop of `setCertificateRequestPolicyCondition`, and the append after it.
unfoldable pub put_condition : Condition → List Condition → List Condition
put_condition condition [] = condition ∷ []
put_condition condition (existing ∷ conditions) =
    let rest = existing ∷ put_condition condition conditions in
    if not (str_eq existing.type condition.type)
    then rest
    else replacement existing condition ∷ conditions

-- `setCertificateRequestPolicyCondition`, at the time that the clock tells.
unfoldable pub set_condition : ℤ → ℤ → Condition → List Condition → List Condition
set_condition now generation condition conditions =
    put_condition
      (record condition { last_transition_time = some now; observed_generation = generation })
      conditions

-- `GenerateCertificateRequestPolicyStatusPatch`
abbrev pub generate_policy_patch :
    Client Status → NamespacedName → Status → Outcome (PatchObject × ApplyPatch)
generate_policy_patch client =
    generate_patch client "CertificateRequestPolicy" "policy.cert-manager.io/v1alpha1"

-- `certificaterequestpolicies`, with the answer of its lister to the one call and the time of its clock.
pub record PolicyController : Type 0 where
  pub get_policy : NamespacedName → Outcome CertificateRequestPolicy
  pub now : ℤ
  pub client : Client Status
  pub reconcilers : List Reconciler

module _ (library : Library) (c : PolicyController) (n : NamespacedName) where
  abbrev pub ready_message : String
  ready_message = "CertificateRequestPolicy is ready for approval evaluation"

  abbrev pub not_ready_message : ErrorList → String
  not_ready_message el =
      "CertificateRequestPolicy is not ready for approval evaluation: "
      +++ library.format_aggregate el

  -- The literal conditions; the clock's time and the generation are set by `set_condition`.
  abbrev pub new_condition : String → String → String → Condition
  new_condition status reason message = record {
    type = condition_ready;
    status = status;
    last_transition_time = none;
    reason = reason;
    message = message;
    observed_generation = pos 0;
  }

  abbrev pub policy_name : CertificateRequestPolicy → NamespacedName
  policy_name policy = record { namespace = ""; name = policy.name }

  -- The condition goes into a fresh status.
  abbrev pub fresh_status : CertificateRequestPolicy → Condition → Status
  fresh_status policy condition = record {
    conditions = set_condition c.now policy.generation condition [];
  }

  unfoldable pub not_ready_patch : CertificateRequestPolicy → Readiness → StatusPatch Status
  not_ready_patch policy r = record {
    result = r.result;
    patch =
        some (fresh_status policy (new_condition "False" "NotReady" (not_ready_message r.errors)));
    error = none;
    effects =
        Effect.event (policy_name policy) "Warning" "NotReady" (not_ready_message r.errors) ∷ [];
  }

  unfoldable pub ready_patch : CertificateRequestPolicy → Readiness → StatusPatch Status
  ready_patch policy r = record {
    result = r.result;
    patch = some (fresh_status policy (new_condition "True" "Ready" ready_message));
    error = none;
    effects = Effect.event (policy_name policy) "Normal" "Ready" ready_message ∷ [];
  }

  unfoldable pub decide_ready :
      CertificateRequestPolicy → Outcome Readiness → Outcome (StatusPatch Status)
  decide_ready policy (ok r) =
      ok (if not r.ready then not_ready_patch policy r else ready_patch policy r)
  decide_ready policy (err e) =
      ok (record { result = no_result; patch = none; error = some e; effects = [] })
  decide_ready policy panic = panic

  -- `client.IgnoreNotFound`
  abbrev pub ignore_not_found : Error → Option Error
  ignore_not_found e = if c.client.is_not_found e then none else some e

  abbrev pub evaluation_failure : String
  evaluation_failure =
      "failed to evaluate ready state of CertificateRequestPolicy " +++ library.quote n.name

  unfoldable pub reconcile_found : Outcome CertificateRequestPolicy → Outcome (StatusPatch Status)
  reconcile_found (ok policy) =
      decide_ready policy (check_reconcilers evaluation_failure c.reconcilers policy initial)
  reconcile_found (err e) =
      ok (record { result = no_result; patch = none; error = ignore_not_found e; effects = [] })
  reconcile_found panic = panic

  -- `reconcileStatusPatch`
  unfoldable pub reconcile_policy_status : Outcome (StatusPatch Status)
  reconcile_policy_status = reconcile_found (c.get_policy n)

  -- `Reconcile`
  unfoldable pub reconcile_policy : Outcome Reconciled
  reconcile_policy =
      reconcile_with c.client (generate_policy_patch c.client) n reconcile_policy_status
