-- ===== src/Allowed/Validate.antt =====
-- pkg/internal/approver/allowed/validation.go: the check of a policy's `allowed` block at admission.
use cert_manager_approver_po.Common.{
  Bool, true, false, Option, none, some, List, [], ◌∷◌, ◌++◌, Outcome, ok, is_nil,
}
use cert_manager_approver_po.Field.{FieldPath, FieldError, required, ErrorList}
use cert_manager_approver_po.Policy.{
  AllowedStringSlice, AllowedString, AllowedX509Subject, Allowed, CertificateRequestPolicy,
}
use cert_manager_approver_po.Approver.{WebhookValidationResponse}
use cert_manager_approver_po.Allowed.Evaluate.{
  allowed_path, subject_path, values_of, value_of, is_required, is_required_string,
}

-- `stringSlices` and `strings`
abbrev pub SlicePair : Type 0
SlicePair = FieldPath × Option AllowedStringSlice

abbrev pub StringPair : Type 0
StringPair = FieldPath × Option AllowedString

abbrev subject_slices : Option AllowedX509Subject → List SlicePair
subject_slices none = []
subject_slices (some s) =
    (subject_path ++ "organizations" ∷ [], s.organizations)
    ∷ (subject_path ++ "countries" ∷ [], s.countries)
    ∷ (subject_path ++ "organizationalUnits" ∷ [], s.organizational_units)
    ∷ (subject_path ++ "localities" ∷ [], s.localities)
    ∷ (subject_path ++ "provinces" ∷ [], s.provinces)
    ∷ (subject_path ++ "streetAddresses" ∷ [], s.street_addresses)
    ∷ (subject_path ++ "postalCodes" ∷ [], s.postal_codes)
    ∷ []

abbrev subject_strings : Option AllowedX509Subject → List StringPair
subject_strings none = []
subject_strings (some s) = (subject_path ++ "serialNumber" ∷ [], s.serial_number) ∷ []

abbrev pub string_slices : Allowed → List SlicePair
string_slices a =
    (allowed_path ++ "dnsNames" ∷ [], a.dns_names)
    ∷ (allowed_path ++ "ipAddresses" ∷ [], a.ip_addresses)
    ∷ (allowed_path ++ "uris" ∷ [], a.uris)
    ∷ (allowed_path ++ "emailAddresses" ∷ [], a.email_addresses)
    ∷ subject_slices a.subject

abbrev pub strings : Allowed → List StringPair
strings a = (allowed_path ++ "commonName" ∷ [], a.common_name) ∷ subject_strings a.subject

-- `p != nil && p.Required != nil && *p.Required && p.Values == nil`, and the error that it leads to.
unfoldable pub unbacked {ℓ} : {A : Type ℓ} → Bool → Option A → FieldError → ErrorList
unbacked true none e = e ∷ []
unbacked true (some _) e = []
unbacked false values e = []

-- The loops over the two lists.
unfoldable pub slice_errors : List SlicePair → ErrorList
slice_errors [] = []
slice_errors ((path, slice) ∷ pairs) =
    unbacked (is_required slice) (values_of slice)
      (required (path ++ "values" ∷ []) "values must be defined if required field")
    ++ slice_errors pairs

unfoldable pub string_errors : List StringPair → ErrorList
string_errors [] = []
string_errors ((path, string) ∷ pairs) =
    unbacked (is_required_string string) (value_of string)
      (required (path ++ "value" ∷ []) "value must be defined if required field")
    ++ string_errors pairs

abbrev pub respond : ErrorList → WebhookValidationResponse
respond el = record { allowed = is_nil el; errors = el }

unfoldable pub validate_allowed : Option Allowed → WebhookValidationResponse
validate_allowed none = record { allowed = true; errors = [] }
validate_allowed (some a) = respond (slice_errors (string_slices a) ++ string_errors (strings a))

-- `Validate`
unfoldable pub validate : CertificateRequestPolicy → Outcome WebhookValidationResponse
unfolding validate_allowed slice_errors string_errors unbacked
validate policy = ok (validate_allowed policy.spec.allowed)
