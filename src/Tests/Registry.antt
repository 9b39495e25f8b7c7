-- ===== src/Tests/Registry.antt =====
-- pkg/registry, and what the repository's own build approves, at small inputs.
use cert_manager_approver_po.Common.{◌≡◌, refl, ◌↔◌, none, some, [], ◌∷◌, ok}
use cert_manager_approver_po.Policy.{CertificateRequestPolicy}
use cert_manager_approver_po.Wildcard.{
  match_runes, wildcard_matches, wildcard_contains, wildcard_subset,
}
use cert_manager_approver_po.Allowed.Evaluate.{
  evaluate as allowed_evaluate, check_request, check_subject, check_values, check_values_unguarded,
  check_is_ca, check_usages, check_common_name, check_serial_number,
}
use cert_manager_approver_po.Allowed.Interface.{allowed_approver}
use cert_manager_approver_po.Constraints.Evaluate.{
  evaluate as constraints_evaluate, check_duration, check_private_key,
}
use cert_manager_approver_po.Constraints.Interface.{constraints_approver}
use cert_manager_approver_po.Predicate.{
  ready, ready_policies, ready_entries, selector_issuer_ref, selects_issuer_ref, selector_namespace,
  namespace_loop, match_namespace, rbac_bound,
}
use cert_manager_approver_po.Predicate.Filter.{filter_each}
use cert_manager_approver_po.Manager.Review.{
  ReviewResponse, approved, new, approved_message, apply_predicates, run_evaluators,
  review_policies, review,
}
use cert_manager_approver_po.Manager.Decides.{IsCandidate}
use cert_manager_approver_po.Cluster.{Cluster}
use cert_manager_approver_po.Registry.{Registry, store, has_conflict, has_name_of, evaluators}
use cert_manager_approver_po.Registry.Unique.{IsUnique, store-IsUnique_iff}
use cert_manager_approver_po.Builtin.{load_approvers}
use cert_manager_approver_po.Builtin.Sound.{Accepts, review-Accepts_iff}
use cert_manager_approver_po.Tests.Fixtures.{
  demo, demo_cluster, web_request, web_allowed, web_policy,
}

abbrev pub built : Registry
built = record { approvers = allowed_approver demo ∷ constraints_approver demo ∷ [] }

pub loads : load_approvers demo ≡ ok built
unfolding load_approvers store has_conflict has_name_of
loads = refl

abbrev one : Registry
one = record { approvers = allowed_approver demo ∷ [] }

stores : store one (constraints_approver demo ∷ []) ≡ ok built
unfolding store has_conflict has_name_of
stores = refl

store-IsUnique_iff_example : IsUnique built.approvers ↔ IsUnique (constraints_approver demo ∷ [])
store-IsUnique_iff_example =
    store-IsUnique_iff one built (constraints_approver demo ∷ []) ((λ h. h), tt) stores

-- A policy that also lets the subject be in Sweden.
abbrev pub swedish : CertificateRequestPolicy
swedish = record web_policy {
  spec = record web_policy.spec {
    allowed = some (record web_allowed {
      subject = some (record {
        organizations = none;
        countries = some (record { values = some ("SE" ∷ []); required = none });
        organizational_units = none;
        localities = none;
        provinces = none;
        street_addresses = none;
        postal_codes = none;
        serial_number = none;
      });
    });
  };
}

abbrev pub swedish_cluster : Cluster
swedish_cluster = record demo_cluster { list_policies = ok (swedish ∷ []) }

abbrev pub approval : ReviewResponse
approval = record { result = approved; message = approved_message demo swedish }

pub approves :
    review demo swedish_cluster (new swedish_cluster (evaluators built)) web_request ≡ ok approval
unfolding review new evaluators apply_predicates run_evaluators review_policies ready ready_policies
    ready_entries selector_issuer_ref selects_issuer_ref filter_each selector_namespace
    namespace_loop match_namespace rbac_bound allowed_evaluate check_request check_subject
    check_values check_values_unguarded check_is_ca check_usages check_common_name
    check_serial_number wildcard_subset wildcard_contains wildcard_matches match_runes
    constraints_evaluate check_duration check_private_key
approves = refl

review-Accepts_iff_example : (approval.result ≡ approved) ↔ (
    (p : CertificateRequestPolicy) × IsCandidate demo swedish_cluster
      (evaluators built)
      web_request
      (swedish ∷ [])
      p
    × Accepts demo web_request p)
review-Accepts_iff_example =
    review-Accepts_iff demo swedish_cluster web_request built (swedish ∷ []) approval loads refl
      approves
