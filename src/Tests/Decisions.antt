-- ===== src/Tests/Decisions.antt =====
-- Decisions of the requests' controller in its loop, at small inputs.
use mathlib.Core.Path.{subst}
use cert_manager_approver_po.Common.{◌≡◌, refl, inl, String, some, List, [], ◌∷◌, ok}
use cert_manager_approver_po.Manager.Review.{
  approved, denied, denied_message, apply_predicates, run_evaluators, review_policies, new, review,
}
use cert_manager_approver_po.Predicate.Filter.{filter_each}
use cert_manager_approver_po.Controllers.Patch.{StatusPatch}
use cert_manager_approver_po.Controllers.Requests.{
  RequestStatus, decision_status, needs_review, decide, decide_review, reconcile_found,
  reconcile_request_status,
}
use cert_manager_approver_po.Controllers.Parties.{Stored, name_of, lookup, Work}
use cert_manager_approver_po.Controllers.Loop.{
  Setting, Loop, started, arrive, get_stored, controller, begin, Reach, start, next, arrived, begun,
}
use cert_manager_approver_po.Controllers.Loop.Snapshot.{Began, Reach-Justified}
use cert_manager_approver_po.Controllers.Requests.Safe.{Justified}
use cert_manager_approver_po.Policy.{CertificateRequestPolicy}
use cert_manager_approver_po.Approver.{Evaluator, EvaluationResult}
use cert_manager_approver_po.Registry.{evaluators}
use cert_manager_approver_po.Predicate.{
  ready, ready_policies, ready_entries, selector_issuer_ref, selects_issuer_ref, selector_namespace,
  namespace_loop, match_namespace, rbac_bound,
}
use cert_manager_approver_po.Tests.Registry.{built, loads, swedish_cluster, approval, approves}
use cert_manager_approver_po.Tests.Fixtures.{demo, demo_cluster, web_request}
use cert_manager_approver_po.Tests.Loop.{listed_conditions, remove, setting, api, asked}

-- The repository's own build, with one policy that accepts the request.
abbrev own : Setting
own = record setting { evaluators = evaluators built }

abbrev waiting_own : Loop own
waiting_own = record (started own swedish_cluster (asked ∷ [])) {
  arrivals = [];
  waiting = name_of asked ∷ [];
}

abbrev approving : Work
approving = record {
  name = name_of asked;
  client = api;
  computed =
      reconcile_request_status (controller own swedish_cluster api (asked ∷ [])) (name_of asked);
}

abbrev at_work_own : Loop own
at_work_own = record waiting_own { waiting = []; work = some approving }

begins_own : begin own (name_of asked) swedish_cluster api waiting_own ≡ at_work_own
unfolding begin remove
begins_own = refl

queues_own : arrive own asked [] ≡ name_of asked ∷ []
unfolding arrive needs_review
queues_own = refl

run_own : Reach own at_work_own
run_own =
    let told = next (start swedish_cluster (asked ∷ [])) (arrived asked [] refl refl) in
    let waiting = subst (λ q. Reach own (record waiting_own { waiting = q })) queues_own told in
    subst (Reach own) begins_own (
      next waiting
        (begun (name_of asked) swedish_cluster api refl refl (inl refl) refl (λ first e h. cc)))

abbrev approval_patch : StatusPatch RequestStatus
approval_patch =
    decide (controller own swedish_cluster api (asked ∷ [])) web_request approved approval.message

computes : approving.computed ≡ ok approval_patch
unfolding reconcile_request_status reconcile_found controller get_stored lookup decide_review
computes = rw approves refl

sends :
    approval_patch.patch
    ≡ some (
        decision_status
          (controller own swedish_cluster api (asked ∷ []))
          "Approved"
          approval.message)
unfolding decide
sends = refl

Reach-Justified_example :
    (began : Began own approving at_work_own) × (policies : List CertificateRequestPolicy)
    × (r : Stored) × (began.cluster.list_policies ≡ ok policies)
    × (lookup (name_of asked) began.moment.stored ≡ some r)
    × Justified demo began.cluster built policies
        (controller own began.cluster api began.moment.stored)
        r.request
        (decision_status
          (controller own swedish_cluster api (asked ∷ []))
          "Approved"
          approval.message)
Reach-Justified_example =
    Reach-Justified own built at_work_own approving approval_patch
      (decision_status (controller own swedish_cluster api (asked ∷ [])) "Approved"
        approval.message)
      loads refl run_own refl computes sends

-- A request that has been approved by another party since it was put in the queue is reviewed all the
-- same, and denied.
abbrev denier : Evaluator
denier = record {
  evaluate = λ policy request. ok (record { result = EvaluationResult.denied; message = "" });
}

abbrev strict : Setting
strict = record setting { evaluators = denier ∷ [] }

abbrev approved_meanwhile : Stored
approved_meanwhile = record {
  request = web_request;
  conditions = listed_conditions.set_request_condition [] "Approved" "True" "kubectl" "";
}

abbrev refusal : String
refusal = denied_message (record { name = "web"; message = "" } ∷ [])

refuses :
    review demo demo_cluster (new demo_cluster (denier ∷ [])) web_request
    ≡ ok (record { result = denied; message = refusal })
unfolding review new apply_predicates run_evaluators review_policies ready ready_policies
    ready_entries selector_issuer_ref selects_issuer_ref filter_each selector_namespace
    namespace_loop match_namespace rbac_bound
refuses = refl

decides_again :
    reconcile_request_status
      (controller strict demo_cluster api (approved_meanwhile ∷ []))
      (name_of asked)
    ≡ ok (
        decide
          (controller strict demo_cluster api (approved_meanwhile ∷ []))
          web_request
          denied
          refusal)
unfolding reconcile_request_status reconcile_found controller get_stored lookup decide_review
decides_again = rw refuses refl
