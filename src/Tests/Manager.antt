-- ===== src/Tests/Manager.antt =====
-- pkg/internal/approver/manager at small inputs.
use cert_manager_approver_po.Common.{◌≡◌, refl, ◌↔◌, inl, inr, List, [], ◌∷◌, Outcome, ok}
use cert_manager_approver_po.Policy.{CertificateRequestPolicy}
use cert_manager_approver_po.Approver.{Evaluator, not_denied}
use cert_manager_approver_po.Predicate.{
  ready, ready_policies, ready_entries, selector_issuer_ref, selects_issuer_ref, selector_namespace,
  namespace_loop, match_namespace, rbac_bound,
}
use cert_manager_approver_po.Predicate.Filter.{filter_each}
use cert_manager_approver_po.Manager.Review.{
  ReviewResponse, approved, denied, unprocessed, new, approved_message, apply_predicates,
  run_evaluators, review_policies, review,
}
use cert_manager_approver_po.Manager.Sound.{IsPassed, IsDenied}
use cert_manager_approver_po.Manager.Decides.{
  IsCandidate, review-approved_iff, review-denied_iff, review-unprocessed_iff,
}
use cert_manager_approver_po.Manager.Order.{relist, review-same_policies}
use cert_manager_approver_po.Tests.Fixtures.{demo, demo_cluster, web_request, web_policy}

abbrev policies : List CertificateRequestPolicy
policies = web_policy ∷ []

-- An evaluator that denies nothing.
abbrev lenient : Evaluator
lenient = record { evaluate = λ policy request. ok (record { result = not_denied; message = "" }) }

abbrev evaluators : List Evaluator
evaluators = lenient ∷ []

abbrev response : ReviewResponse
response = record { result = approved; message = approved_message demo web_policy }

kept_ready : ready web_request policies ≡ ok policies
unfolding ready ready_policies ready_entries
kept_ready = refl

kept_issuer : selector_issuer_ref web_request policies ≡ ok policies
unfolding selector_issuer_ref selects_issuer_ref filter_each
kept_issuer = refl

kept_namespace : selector_namespace demo_cluster web_request policies ≡ ok policies
unfolding selector_namespace namespace_loop match_namespace
kept_namespace = refl

kept_bound : rbac_bound demo_cluster web_request policies ≡ ok policies
unfolding rbac_bound filter_each
kept_bound = refl

reviewed : review demo demo_cluster (new demo_cluster evaluators) web_request ≡ ok response
unfolding review new apply_predicates run_evaluators review_policies ready ready_policies
    ready_entries selector_issuer_ref selects_issuer_ref filter_each selector_namespace
    namespace_loop match_namespace rbac_bound
reviewed = refl

review-approved_iff_example :
    ((response.result ≡ approved) ↔ (
      (p : CertificateRequestPolicy) × IsCandidate demo demo_cluster evaluators web_request policies
        p
      × IsPassed evaluators web_request p))
    × (response.result ≡ approved
        → (p : CertificateRequestPolicy) × IsCandidate demo demo_cluster evaluators web_request
            policies p
          × IsPassed evaluators web_request p
          × (response.message ≡ approved_message demo p))
review-approved_iff_example =
    review-approved_iff demo demo_cluster evaluators web_request policies response refl reviewed

review-denied_iff_example : (response.result ≡ denied) ↔ (
    ((p : CertificateRequestPolicy) × IsCandidate demo demo_cluster evaluators web_request policies
        p)
    × ((q : CertificateRequestPolicy)
        → IsCandidate demo demo_cluster evaluators web_request policies q
        → IsDenied evaluators web_request q))
review-denied_iff_example =
    review-denied_iff demo demo_cluster evaluators web_request policies response refl reviewed

review-unprocessed_iff_example : (response.result ≡ unprocessed) ↔ (
    (q : CertificateRequestPolicy)
    → ¬ IsCandidate demo demo_cluster evaluators web_request policies q)
review-unprocessed_iff_example =
    review-unprocessed_iff demo demo_cluster evaluators web_request policies response refl reviewed

-- The same policies twice.
abbrev twice : Outcome (List CertificateRequestPolicy)
twice = ok (web_policy ∷ web_policy ∷ [])

reviewed_twice :
    review demo (relist demo_cluster twice) (new (relist demo_cluster twice) evaluators) web_request
    ≡ ok response
unfolding review new apply_predicates run_evaluators review_policies ready ready_policies
    ready_entries selector_issuer_ref selects_issuer_ref filter_each selector_namespace
    namespace_loop match_namespace rbac_bound
reviewed_twice = refl

review-same_policies_example : response.result ≡ response.result
review-same_policies_example =
    review-same_policies demo demo_cluster evaluators web_request twice policies
      (web_policy ∷ web_policy ∷ []) response response refl refl
      (λ p. ((λ h. inr h), (λ h. elim h [ inl e ↦ inl e | inr m ↦ m ]))) reviewed reviewed_twice
