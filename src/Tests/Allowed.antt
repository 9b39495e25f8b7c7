-- ===== src/Tests/Allowed.antt =====
-- pkg/internal/approver/allowed at small inputs.
use cert_manager_approver_po.Common.{◌≡◌, refl, ◌↔◌, true, none, some, [], ok, panic, arith}
use cert_manager_approver_po.Policy.{Allowed, CertificateRequestPolicy}
use cert_manager_approver_po.Approver.{EvaluationResponse, WebhookValidationResponse, not_denied}
use cert_manager_approver_po.Allowed.Evaluate.{empty_allowed, evaluate, allowed_of}
use cert_manager_approver_po.Allowed.Permits.{Permits, DanglingSubject}
use cert_manager_approver_po.Allowed.Decides.{evaluate-panic_iff, evaluate-Permits_iff}
use cert_manager_approver_po.Allowed.Validate.{validate}
use cert_manager_approver_po.Allowed.Admission.{AllIsBacked, validate-AllIsBacked_iff}
use cert_manager_approver_po.Tests.Fixtures.{demo, web_request, web_csr, web_policy}

-- The subject's countries only, with neither values nor `required`.
abbrev bare_countries : Allowed
bare_countries = record empty_allowed {
  subject = some (record {
    organizations = none;
    countries = some (record { values = none; required = none });
    organizational_units = none;
    localities = none;
    provinces = none;
    street_addresses = none;
    postal_codes = none;
    serial_number = none;
  });
}

abbrev bare_policy : CertificateRequestPolicy
bare_policy = record web_policy { spec = record web_policy.spec { allowed = some bare_countries } }

evaluate-panic_iff_example :
    (evaluate demo bare_policy web_request ≡ panic)
    ↔ DanglingSubject (allowed_of bare_policy).subject web_csr.subject
evaluate-panic_iff_example = evaluate-panic_iff demo bare_policy web_request web_csr refl

evaluate-Permits_iff_example :
    (r : EvaluationResponse) × (evaluate demo web_policy web_request ≡ ok r)
    × ((r.result ≡ not_denied) ↔ Permits demo (allowed_of web_policy) web_request web_csr)
evaluate-Permits_iff_example =
    evaluate-Permits_iff demo web_policy web_request web_csr refl (λ h. ground arith)

validate-AllIsBacked_iff_example :
    (r : WebhookValidationResponse) × (validate web_policy ≡ ok r)
    × ((r.allowed ≡ true) ↔ AllIsBacked web_policy.spec.allowed)
    × ((r.allowed ≡ true) ↔ (r.errors ≡ []))
validate-AllIsBacked_iff_example = validate-AllIsBacked_iff web_policy
