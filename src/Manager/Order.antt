-- ===== src/Manager/Order.antt =====
-- pkg/internal/approver/manager/review.go: the lister gives the policies in any order.
use cert_manager_approver_po.Common.{
  ◌≡◌, sym, ap, ◌∙◌, ◌↔◌, String, Option, none, some, List, Outcome, ok,
}
use cert_manager_approver_po.Policy.{SelectorNamespace, CertificateRequestPolicy}
use cert_manager_approver_po.Request.{CertificateRequest}
use cert_manager_approver_po.Approver.{Evaluator}
use cert_manager_approver_po.Library.{Library}
use cert_manager_approver_po.Cluster.{Labels, Cluster}
use cert_manager_approver_po.Predicate.Filter.{In}
use cert_manager_approver_po.Predicate.Selects.{LabelsHold, SelectsNamespace, Applies}
use cert_manager_approver_po.Manager.Review.{ReviewResponse, new, review}
use cert_manager_approver_po.Manager.Decides.{
  review-approved_iff, review-denied_iff, review-unprocessed_iff, by_policy, all_denied,
  none_applies, review-Verdict,
}

-- The cluster with another answer to the listing of the policies.
abbrev pub relist : Cluster → Outcome (List CertificateRequestPolicy) → Cluster
relist cluster other = record cluster { list_policies = other }

module _ (cluster : Cluster) (other : Outcome (List CertificateRequestPolicy)) where
  LabelsHold-relist :
      (namespace : String) (o : Option Labels)
      → LabelsHold cluster namespace o ↔ LabelsHold (relist cluster other) namespace o
  LabelsHold-relist namespace none = (λ h. h, λ h. h)
  LabelsHold-relist namespace (some wanted) = (λ h. h, λ h. h)

  SelectsNamespace-relist :
      (namespace : String) (o : Option SelectorNamespace)
      → SelectsNamespace cluster namespace o ↔ SelectsNamespace (relist cluster other) namespace o
  SelectsNamespace-relist namespace none = (λ h. h, λ h. h)
  SelectsNamespace-relist namespace (some s) =
      let (to, from) = LabelsHold-relist namespace s.match_labels in
      (λ (named, labels). (named, to labels), λ (named, labels). (named, from labels))

  -- What applies to a request does not depend on the listing.
  Applies-relist :
      (request : CertificateRequest) (p : CertificateRequestPolicy)
      → Applies cluster request p ↔ Applies (relist cluster other) request p
  Applies-relist request p =
      let (to, from) = SelectsNamespace-relist request.namespace p.spec.selector.namespace in
      (
        λ a. record {
          is_ready = a.is_ready;
          issuer = a.issuer;
          namespace = to a.namespace;
          is_bound = a.is_bound;
        },
        λ a. record {
          is_ready = a.is_ready;
          issuer = a.issuer;
          namespace = from a.namespace;
          is_bound = a.is_bound;
        },
      )

-- Two reviews of a request, both of which return, whose clusters differ in their lists of policies only,
-- and list the same policies in any order and any number of times, come to the same result.
pub review-same_policies :
    (library : Library) (cluster : Cluster) (evaluators : List Evaluator)
    (request : CertificateRequest) (other : Outcome (List CertificateRequestPolicy))
    (ps qs : List CertificateRequestPolicy) (r s : ReviewResponse)
    → cluster.list_policies ≡ ok ps
    → other ≡ ok qs
    → ((p : CertificateRequestPolicy) → In p ps ↔ In p qs)
    → review library cluster (new cluster evaluators) request ≡ ok r
    → review library (relist cluster other) (new (relist cluster other) evaluators) request ≡ ok s
    → r.result ≡ s.result
review-same_policies library cluster evaluators request other ps qs r s listed relisted same first
      second =
    let c' = relist cluster other in
    let moves = λ (p : CertificateRequestPolicy). Applies-relist cluster other request p in
    elim (review-Verdict library cluster evaluators request ps r listed first) [
      | by_policy p (m, applies) passes e ↦
          ap (λ (x : ReviewResponse). x.result) e
          ∙ sym (
              (review-approved_iff library c' evaluators request qs s relisted second).0.1
                (p, ((same p).0 m, (moves p).0 applies), passes))
      | all_denied p (m, applies) all e ↦
          e
          ∙ sym (
              (review-denied_iff library c' evaluators request qs s relisted second).1 (
                (p, ((same p).0 m, (moves p).0 applies)),
                λ q (n, on). all q ((same q).1 n, (moves q).1 on),
              ))
      | none_applies none_on e ↦
          e
          ∙ sym (
              (review-unprocessed_iff library c' evaluators request qs s relisted second).1
                (λ q (n, on). none_on q ((same q).1 n, (moves q).1 on)))
    ]
