-- ===== src/Controllers/Requests.antt =====
-- pkg/internal/controllers/certificaterequests.go: the controller that approves or denies requests.
pub mod Decides
pub mod Safe
pub mod Undecided
use cert_manager_approver_po.Common.{
  String, ℤ, pos, Bool, true, false, not, ◌&&◌, ◌||◌, Option, none, some, List, [], ◌∷◌, Outcome,
  ok, err, panic, Error, if◌then◌else◌,
}
use cert_manager_approver_po.Request.{CertificateRequest}
use cert_manager_approver_po.Approver.{ReconcileResult, no_result}
use cert_manager_approver_po.Manager.Review.{
  ReviewResult, approved, denied, unprocessed, other_result, ReviewResponse,
}
use cert_manager_approver_po.Controllers.Patch.{
  NamespacedName, Effect, Reconciled, StatusPatch, PatchObject, ApplyPatch, Client, generate_patch,
  reconcile_with,
}

-- cert-manager's `CertificateRequestCondition` and the part of `CertificateRequestStatus` that the
-- controller writes.
pub record RequestCondition : Type 0 where
  pub type : String
  pub status : String
  pub reason : String
  pub message : String
  pub last_transition_time : Option ℤ

pub record RequestStatus : Type 0 where
  pub conditions : List RequestCondition

-- `certificaterequests`, with what its manager and its lister answer, and cert-manager's `apiutil`.
pub record RequestController : Type 1 where
  pub get_request : NamespacedName → Outcome CertificateRequest
  -- `manager.Review`
  pub review : CertificateRequest → Outcome ReviewResponse
  pub client : Client RequestStatus
  -- `apiutil.SetCertificateRequestCondition`: the type, the status, the reason and the message
  pub set_request_condition :
      List RequestCondition → String → String → String → String → List RequestCondition

-- `GenerateCertificateRequestStatusPatch`
abbrev pub generate_request_patch :
    Client RequestStatus → NamespacedName → RequestStatus → Outcome (PatchObject × ApplyPatch)
generate_request_patch client = generate_patch client "CertificateRequest" "cert-manager.io/v1"

abbrev pub condition_approved : String
condition_approved = "Approved"

abbrev pub condition_denied : String
condition_denied = "Denied"

abbrev pub request_name : CertificateRequest → NamespacedName
request_name cr = record { namespace = cr.namespace; name = cr.name }

module _ (c : RequestController) where
  -- `setCertificateRequestStatusCondition`, less the condition that it returns, which no call reads.
  unfoldable pub set_status_condition :
      List RequestCondition → String → String → String → String → List RequestCondition
  set_status_condition conditions type status reason message =
      c.set_request_condition conditions type status reason message

  -- The patch of an approval or a denial.
  abbrev pub decision_status : String → String → RequestStatus
  decision_status type message = record {
    conditions = set_status_condition [] type "True" "policy.cert-manager.io" message;
  }

  -- `time.Second * 5`
  abbrev pub retry_delay : ℤ
  retry_delay = pos 5_000_000_000

  abbrev pub unknown_text : String
  unknown_text =
      "Policy returned an unknown result. This is a bug. Please check the approver-policy logs and file an issue"

  -- The `switch` on the result.
  unfoldable pub decide : CertificateRequest → ReviewResult → String → StatusPatch RequestStatus
  decide cr approved message = record {
    result = no_result;
    patch = some (decision_status condition_approved message);
    error = none;
    effects = Effect.event (request_name cr) "Normal" "Approved" message ∷ [];
  }
  decide cr denied message = record {
    result = no_result;
    patch = some (decision_status condition_denied message);
    error = none;
    effects = Effect.event (request_name cr) "Warning" "Denied" message ∷ [];
  }
  decide cr unprocessed message = record {
    result = no_result;
    patch = none;
    error = none;
    effects =
        Effect.event (request_name cr) "Normal" "Unprocessed"
          "Request is not applicable for any policy so ignoring"
        ∷ [];
  }
  decide cr (other_result code) message = record {
    result = record { requeue = true; requeue_after = retry_delay };
    patch = none;
    error = none;
    effects = Effect.event (request_name cr) "Warning" "UnknownResponse" unknown_text ∷ [];
  }

  unfoldable pub decide_review :
      CertificateRequest → Outcome ReviewResponse → Outcome (StatusPatch RequestStatus)
  decide_review cr (ok response) = ok (decide cr response.result response.message)
  decide_review cr (err e) = ok (record {
    result = no_result;
    patch = none;
    error = some e;
    effects =
        Effect.event (request_name cr) "Warning" "EvaluationError"
          "approver-policy failed to review the request and will retry"
        ∷ [];
  })
  decide_review cr panic = panic

  -- `client.IgnoreNotFound`
  abbrev pub ignore_not_found : Error → Option Error
  ignore_not_found e = if c.client.is_not_found e then none else some e

  unfoldable pub reconcile_found : Outcome CertificateRequest → Outcome (StatusPatch RequestStatus)
  reconcile_found (ok cr) = decide_review cr (c.review cr)
  reconcile_found (err e) =
      ok (record { result = no_result; patch = none; error = ignore_not_found e; effects = [] })
  reconcile_found panic = panic

  -- `reconcileStatusPatch`
  unfoldable pub reconcile_request_status : NamespacedName → Outcome (StatusPatch RequestStatus)
  reconcile_request_status n = reconcile_found (c.get_request n)

  -- `Reconcile`
  unfoldable pub reconcile_request : NamespacedName → Outcome Reconciled
  reconcile_request n =
      reconcile_with c.client (generate_request_patch c.client) n (reconcile_request_status n)

-- What becomes of the process on an event of a policy, a role, a binding or a namespace: it enqueues
-- requests, or exits if the list cannot be read.
pub data Enqueued : Type 0 where
  enqueued : List NamespacedName → Enqueued
  exited : Enqueued

-- cert-manager's `CertificateRequestIsApproved` and `CertificateRequestIsDenied`, over the type of a
-- request that is listed with its status.
module _ {Listed : Type 0} (is_approved is_denied : Listed → Bool)
    (name_of : Listed → NamespacedName) where
  -- The event filter of `For`.
  unfoldable pub needs_review : Listed → Bool
  needs_review cr = not (is_approved cr) && not (is_denied cr)

  -- The loop of `enqueueRequestFromMapFunc`.
  unfoldable pub undecided : List Listed → List NamespacedName
  undecided [] = []
  undecided (cr ∷ requests) =
      let rest = undecided requests in
      if is_approved cr || is_denied cr then rest else name_of cr ∷ rest

  -- `enqueueRequestFromMapFunc`
  unfoldable pub enqueue_requests : Outcome (List Listed) → Outcome Enqueued
  enqueue_requests (ok listed) = ok (enqueued (undecided listed))
  enqueue_requests (err e) = ok exited
  enqueue_requests panic = panic
