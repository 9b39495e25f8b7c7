-- ===== src/Controllers/Requests/Safe.antt =====
-- pkg/internal/controllers/certificaterequests.go in the repository's own build: the requests that it
-- approves and denies.
use cert_manager_approver_po.Common.{◌≡◌, sym, ◌∙◌, List, ok}
use cert_manager_approver_po.Policy.{CertificateRequestPolicy}
use cert_manager_approver_po.Request.{CertificateRequest}
use cert_manager_approver_po.Library.{Library}
use cert_manager_approver_po.Cluster.{Cluster}
use cert_manager_approver_po.Manager.Review.{ReviewResponse, new, review}
use cert_manager_approver_po.Manager.Decides.{IsPassed-IsDenied, IsCandidate, review-denied_iff}
use cert_manager_approver_po.Predicate.Filter.{In}
use cert_manager_approver_po.Registry.{Registry, evaluators}
use cert_manager_approver_po.Builtin.{load_approvers}
use cert_manager_approver_po.Builtin.Sound.{Accepts, IsPassed-Accepts, review-Accepts_iff}
use cert_manager_approver_po.Controllers.Patch.{
  NamespacedName, PatchObject, ApplyPatch, PatchOptions, Effect, Reconciled,
}
use cert_manager_approver_po.Controllers.Patch.Sends.{Source}
use cert_manager_approver_po.Controllers.Requests.{
  generate_request_patch, RequestStatus, RequestController, reconcile_request,
}
use cert_manager_approver_po.Controllers.Requests.Decides.{
  sole_condition, Decision, approval, denial, reconcile_request-Reviewed,
}

module _ (library : Library) (cluster : Cluster) (loaded : Registry)
    (policies : List CertificateRequestPolicy) (c : RequestController) where
  -- What stands behind a status for a request.
  pub data Justified (cr : CertificateRequest) (status : RequestStatus) : Type 0 where
    accepted :
        (p : CertificateRequestPolicy) (response : ReviewResponse)
        → IsCandidate library cluster (evaluators loaded) cr policies p
        → Accepts library cr p
        → status ≡ sole_condition c "Approved" response.message
        → Justified cr status
    refused :
        (p : CertificateRequestPolicy) (response : ReviewResponse)
        → IsCandidate library cluster (evaluators loaded) cr policies p
        → ((q : CertificateRequestPolicy)
            → IsCandidate library cluster (evaluators loaded) cr policies q
            → ¬ Accepts library cr q)
        → status ≡ sole_condition c "Denied" response.message
        → Justified cr status

  pub Decision-Justified :
      (cr : CertificateRequest) (status : RequestStatus) (response : ReviewResponse)
      → load_approvers library ≡ ok loaded
      → cluster.list_policies ≡ ok policies
      → review library cluster (new cluster (evaluators loaded)) cr ≡ ok response
      → Decision c response status
      → Justified cr status
  Decision-Justified cr status response load listed reviewed (approval result written) =
      let (p, candidate, accepts) =
        (review-Accepts_iff library cluster cr loaded policies response load listed reviewed).0
          result in
      accepted p response candidate accepts written
  Decision-Justified cr status response load listed reviewed (denial result written) =
      let ((p, candidate), all) =
        (review-denied_iff library cluster (evaluators loaded) cr policies response listed
            reviewed).0
          result in
      refused p response candidate
        (λ q k accepts.
          IsPassed-IsDenied (evaluators loaded) cr q
            ((IsPassed-Accepts library cr q loaded load).1 accepts) (all q k))
        written

  -- In the repository's own build, with its manager as the reviewer: every patch that a reconcile of a
  -- request sends is either an approval, and then some listed policy applies to the request and accepts
  -- it, or a denial, and then some listed policy applies and none that applies accepts it.
  pub reconcile_request-Justified :
      (n : NamespacedName) (done : Reconciled) (o : PatchObject) (p : ApplyPatch)
      (options : PatchOptions)
      → load_approvers library ≡ ok loaded
      → cluster.list_policies ≡ ok policies
      → ((cr : CertificateRequest)
          → c.review cr ≡ review library cluster (new cluster (evaluators loaded)) cr)
      → reconcile_request c n ≡ ok done
      → In (Effect.sent o p options) done.effects
      → (cr : CertificateRequest) × (status : RequestStatus) × (c.get_request n ≡ ok cr)
        × Justified cr status
        × Source c.client (generate_request_patch c.client) n o p options status
  reconcile_request-Justified n done o p options load listed reviewer h sent =
      let (status, r, source) = reconcile_request-Reviewed c n done o p options h sent in
      (
        r.cr,
        status,
        r.found,
        Decision-Justified r.cr status r.response load listed (sym (reviewer r.cr) ∙ r.reviewed)
            r.decision,
        source,
      )
