-- ===== src/Tests/Policies.antt =====
-- pkg/internal/controllers/certificaterequestpolicies.go at small inputs.
use cert_manager_approver_po.Common.{
  ◌≡◌, refl, ◌↔◌, pos, true, false, none, some, List, [], ◌∷◌, ok, err, Error,
}
use cert_manager_approver_po.Policy.{Status}
use cert_manager_approver_po.Approver.{
  ReconcileResult, no_result, ReconcilerReadyResponse, Reconciler,
}
use cert_manager_approver_po.Predicate.Selects.{IsReady}
use cert_manager_approver_po.Controllers.Patch.{NamespacedName, StatusPatch, Client}
use cert_manager_approver_po.Controllers.Policies.{
  Readiness, initial, check_reconcilers, set_condition, PolicyController, evaluation_failure,
  new_condition, reconcile_policy_status, reconcile_policy,
}
use cert_manager_approver_po.Controllers.Policies.Conditions.{
  find_condition, write_condition, IsDistinct, find-set_condition, set_condition-IsDistinct,
}
use cert_manager_approver_po.Controllers.Policies.Requeue.{
  MergesFrom, results_of, collect, check_reconcilers-MergesFrom,
}
use cert_manager_approver_po.Controllers.Policies.Decides.{
  Reports, AllReady, reconcile_policy_status-Reports,
}
use cert_manager_approver_po.Controllers.Policies.Errors.{here, later, reconcile_policy-FirstError}
use cert_manager_approver_po.Tests.Fixtures.{demo, web_policy, ready_status}

abbrev pub web_name : NamespacedName
web_name = record { namespace = ""; name = "web" }

abbrev demo_client : Client Status
demo_client = record {
  marshal = λ configuration. ok [];
  patch = λ object patch options. ok tt;
  is_not_found = λ e. false;
  aggregate = λ a b. b;
}

abbrev soon : ReconcileResult
soon = record { requeue = false; requeue_after = pos 5 }

abbrev later_on : ReconcileResult
later_on = record { requeue = true; requeue_after = pos 9 }

abbrev slow : ReconcilerReadyResponse
slow = record { ready = true; errors = []; result = later_on }

abbrev quick : ReconcilerReadyResponse
quick = record { ready = true; errors = []; result = soon }

abbrev answers_with : ReconcilerReadyResponse → Reconciler
answers_with r = record { ready = λ policy. ok r; enqueue_chan = none }

abbrev failing : Reconciler
failing = record { ready = λ policy. err (Error.reported "no"); enqueue_chan = some "failing" }

abbrev two_reconcilers : List Reconciler
two_reconcilers = answers_with slow ∷ answers_with quick ∷ []

abbrev controller_of : List Reconciler → PolicyController
controller_of reconcilers = record {
  get_policy = λ n. ok web_policy;
  now = pos 100;
  client = demo_client;
  reconcilers = reconcilers;
}

find-set_condition_example :
    find_condition (
      set_condition
        (pos 7)
        (pos 2)
        (new_condition demo (controller_of []) web_name "False" "NotReady" "m")
        ready_status.conditions)
    ≡ write_condition
        (record (new_condition demo (controller_of []) web_name "False" "NotReady" "m") {
          last_transition_time = some (pos 7);
          observed_generation = pos 2;
        })
        (find_condition ready_status.conditions)
find-set_condition_example =
    find-set_condition (pos 7) (pos 2)
      (new_condition demo (controller_of []) web_name "False" "NotReady" "m")
      ready_status.conditions

set_condition-IsDistinct_example : IsDistinct (
    set_condition
      (pos 7)
      (pos 2)
      (new_condition demo (controller_of []) web_name "False" "NotReady" "m")
      ready_status.conditions)
set_condition-IsDistinct_example =
    set_condition-IsDistinct (pos 7) (pos 2)
      (new_condition demo (controller_of []) web_name "False" "NotReady" "m")
      ready_status.conditions ((λ h. h), tt)

check_reconcilers-MergesFrom_example :
    (r : Readiness) × (check_reconcilers "failed" two_reconcilers web_policy initial ≡ ok r)
    × MergesFrom no_result (results_of (slow ∷ quick ∷ [])) r.result
check_reconcilers-MergesFrom_example =
    check_reconcilers-MergesFrom "failed" two_reconcilers web_policy (slow ∷ quick ∷ [])
      (refl, (refl, tt))

reconcile_policy_status-Reports_example :
    (p : StatusPatch Status) × (reconcile_policy_status demo
        (controller_of two_reconcilers)
        web_name
      ≡ ok p)
    × (p.error ≡ none)
    × (p.result ≡ (collect initial (slow ∷ quick ∷ [])).result)
    × ((status : Status) × (p.patch ≡ some status)
        × Reports demo
            (controller_of two_reconcilers)
            web_name
            web_policy
            (slow ∷ quick ∷ [])
            status
        × (IsReady (record web_policy { status = status }) ↔ AllReady (slow ∷ quick ∷ [])))
reconcile_policy_status-Reports_example =
    reconcile_policy_status-Reports demo (controller_of two_reconcilers) web_name web_policy
      (slow ∷ quick ∷ []) refl (refl, (refl, tt))

reconcile_policy-FirstError_example :
    reconcile_policy demo (controller_of (answers_with quick ∷ failing ∷ [])) web_name
    ≡ ok (record {
      result = no_result;
      error = some (
          Error.wrapped
            (evaluation_failure demo (controller_of []) web_name)
            (Error.reported "no"));
      effects = [];
    })
reconcile_policy-FirstError_example =
    reconcile_policy-FirstError demo (controller_of (answers_with quick ∷ failing ∷ [])) web_name
      web_policy (Error.reported "no") refl (later quick refl (here refl))
