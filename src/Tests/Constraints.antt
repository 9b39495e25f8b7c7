-- ===== src/Tests/Constraints.antt =====
-- pkg/internal/approver/constraints at small inputs.
use cert_manager_approver_po.Common.{ℕ, ◌≤◌, ◌<◌, ◌^◌, pos, ◌≡◌, refl, ◌↔◌, true, [], ok}
use cert_manager_approver_po.Approver.{EvaluationResponse, WebhookValidationResponse, not_denied}
use cert_manager_approver_po.Request.{PublicKey}
use cert_manager_approver_po.Constraints.KeySize.{decode_public_key-le_iff}
use cert_manager_approver_po.Constraints.Evaluate.{
  rsa, decode_public_key, bit_len, bit_length, evaluate, check_duration, check_private_key,
}
use cert_manager_approver_po.Constraints.Satisfies.{Satisfies}
use cert_manager_approver_po.Constraints.Decides.{evaluate-Satisfies_iff}
use cert_manager_approver_po.Constraints.Validate.{
  validate, key_errors, duration_order_errors, duration_errors,
}
use cert_manager_approver_po.Constraints.Admission.{IsConsistent, validate-IsConsistent_iff}
use cert_manager_approver_po.Tests.Fixtures.{demo, web_request, web_policy}

abbrev passed : EvaluationResponse
passed = record { result = not_denied; message = "" }

abbrev admitted : WebhookValidationResponse
admitted = record { allowed = true; errors = [] }

web_passes : evaluate demo web_policy web_request ≡ ok passed
unfolding evaluate check_duration check_private_key
web_passes = refl

web_admitted : validate demo web_policy ≡ ok admitted
unfolding validate key_errors duration_order_errors duration_errors
web_admitted = refl

evaluate-Satisfies_iff_example :
    (passed.result ≡ not_denied) ↔ Satisfies demo web_policy.spec.constraints web_request
evaluate-Satisfies_iff_example =
    evaluate-Satisfies_iff demo web_policy web_request passed web_passes

validate-IsConsistent_iff_example :
    (r : WebhookValidationResponse) × (validate demo web_policy ≡ ok r)
    × ((r.allowed ≡ true) ↔ IsConsistent web_policy.spec.constraints)
    × ((r.allowed ≡ true) ↔ (r.errors ≡ []))
validate-IsConsistent_iff_example = validate-IsConsistent_iff demo web_policy

decode_public_key-le_iff_example :
    (size : ℕ) × (decode_public_key (PublicKey.rsa_pointer 13) ≡ ok (rsa, pos size))
    × ((b : ℕ) → (size ≤ b) ↔ (13 < 2 ^ b))
decode_public_key-le_iff_example = decode_public_key-le_iff 13

four_digits : bit_len 13 ≡ 4
unfolding bit_len bit_length
four_digits = refl
