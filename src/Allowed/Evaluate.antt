-- ===== src/Allowed/Evaluate.antt =====
-- pkg/internal/approver/allowed/evaluator.go. The twelve fields of the request that are compared
-- with values of the policy go through three functions, one for each way in which the source is
-- written: a text, a list whose policy values are tested for nil, and a list whose policy values
-- are read through the pointer without a test.
use cert_manager_approver_po.Common.{
  String, Bool, true, false, Option, none, some, List, [], ◌∷◌, ◌++◌, map, Outcome, ok, panic,
  ◌>>=◌, if◌then◌else◌, is_set_true, is_empty, join, format_bool,
}
use cert_manager_approver_po.Field.{FieldPath, text, texts, flag, invalid, required, ErrorList}
use cert_manager_approver_po.Policy.{
  AllowedStringSlice, AllowedString, AllowedX509Subject, Allowed, CertificateRequestPolicy,
}
use cert_manager_approver_po.Request.{CertificateRequest, SubjectName, Csr}
use cert_manager_approver_po.Approver.{EvaluationResponse, denied, not_denied}
use cert_manager_approver_po.Library.{Library}
use cert_manager_approver_po.Wildcard.{wildcard_matches, wildcard_subset}

abbrev pub allowed_path : FieldPath
allowed_path = "spec" ∷ "allowed" ∷ []

abbrev pub subject_path : FieldPath
subject_path = "spec" ∷ "allowed" ∷ "subject" ∷ []

-- `a != nil && a.Required != nil && *a.Required`
abbrev pub is_required : Option AllowedStringSlice → Bool
is_required none = false
is_required (some a) = is_set_true a.required

abbrev pub is_required_string : Option AllowedString → Bool
is_required_string none = false
is_required_string (some a) = is_set_true a.required

-- The branch for a request without the field.
unfoldable pub missing : FieldPath → Bool → ErrorList
missing path true = required (path ++ "required" ∷ []) (format_bool true) ∷ []
missing path false = []

-- The policy's values against the request's, where the policy's may be absent.
unfoldable pub compare_values : FieldPath → Option (List String) → List String → ErrorList
compare_values path none given = invalid (path ++ "values" ∷ []) (texts given) "nil" ∷ []
compare_values path (some values) given =
    if wildcard_subset values given
    then []
    else invalid (path ++ "values" ∷ []) (texts given) (join values ", ") ∷ []

abbrev pub values_of : Option AllowedStringSlice → Option (List String)
values_of none = none
values_of (some a) = a.values

-- `DNSNames`, `IPAddresses`, `URIs`, `EmailAddresses` and `Subject.Organization`
unfoldable pub check_values : FieldPath → Option AllowedStringSlice → List String → ErrorList
unfolding missing compare_values
check_values path allowed [] = missing path (is_required allowed)
check_values path allowed (g ∷ given) = compare_values path (values_of allowed) (g ∷ given)

-- `*a.Values`, which panics on nil
abbrev pub dereference {ℓ} : {A : Type ℓ} → Option A → Outcome A
dereference none = panic
dereference (some a) = ok a

-- The other lists of the subject.
unfoldable pub check_values_unguarded :
    FieldPath → Option AllowedStringSlice → List String → Outcome ErrorList
unfolding missing compare_values
check_values_unguarded path allowed [] = ok (missing path (is_required allowed))
check_values_unguarded path none (g ∷ given) = ok (compare_values path none (g ∷ given))
check_values_unguarded path (some a) (g ∷ given) = do
  values ← dereference a.values
  ok (compare_values path (some values) (g ∷ given))

unfoldable pub compare_value : FieldPath → Option String → String → ErrorList
compare_value path none given = invalid (path ++ "value" ∷ []) (text given) "nil" ∷ []
compare_value path (some value) given =
    if wildcard_matches value given
    then []
    else invalid (path ++ "value" ∷ []) (text given) value ∷ []

abbrev pub value_of : Option AllowedString → Option String
value_of none = none
value_of (some a) = a.value

abbrev pub common_name_path : FieldPath
common_name_path = allowed_path ++ "commonName" ∷ []

-- `Subject.CommonName`
unfoldable pub check_common_name : Option AllowedString → String → ErrorList
unfolding missing compare_value
check_common_name allowed given =
    if is_empty given
    then missing common_name_path (is_required_string allowed)
    else compare_value common_name_path (value_of allowed) given

-- `Subject.SerialNumber`
abbrev pub serial_number_path : FieldPath
serial_number_path = subject_path ++ "serialNumber" ∷ []

unfoldable pub compare_serial_number : Option AllowedString → String → Outcome ErrorList
unfolding compare_value
compare_serial_number none given = ok (compare_value serial_number_path none given)
compare_serial_number (some a) given = do
  value ← dereference a.value
  ok (compare_value serial_number_path (some value) given)

unfoldable pub check_serial_number : Option AllowedString → String → Outcome ErrorList
unfolding missing compare_serial_number
check_serial_number allowed given =
    if is_empty given
    then ok (missing serial_number_path (is_required_string allowed))
    else compare_serial_number allowed given

unfoldable pub check_is_ca : Option Bool → Bool → ErrorList
check_is_ca allowed false = []
check_is_ca none true = invalid (allowed_path ++ "isCA" ∷ []) (flag true) "nil" ∷ []
check_is_ca (some allowed) true =
    if allowed
    then []
    else invalid (allowed_path ++ "isCA" ∷ []) (flag true) (format_bool allowed) ∷ []

unfoldable pub check_usages : Option (List String) → List String → ErrorList
check_usages allowed [] = []
check_usages none (u ∷ usages) =
    invalid (allowed_path ++ "usages" ∷ []) (texts (u ∷ usages)) "nil" ∷ []
check_usages (some values) (u ∷ usages) =
    if wildcard_subset values (u ∷ usages)
    then []
    else invalid (allowed_path ++ "usages" ∷ []) (texts (u ∷ usages)) (join values ", ") ∷ []

-- A field of a subject that may be absent.
abbrev pub subject_field {ℓ} :
    {A : Type ℓ} → (AllowedX509Subject → Option A) → Option AllowedX509Subject → Option A
subject_field field none = none
subject_field field (some subject) = field subject

-- One check after another, each appending its errors to the list `el`.
infixr 25 ◌▸◌
abbrev pub ◌▸◌ : Outcome ErrorList → Outcome ErrorList → Outcome ErrorList
first ▸ second = do el ← first; more ← second; ok (el ++ more)

abbrev list_field : String → Option AllowedStringSlice → List String → Outcome ErrorList
list_field name allowed given = check_values_unguarded (subject_path ++ name ∷ []) allowed given

-- The checks of the subject, in the order of the source.
unfoldable pub check_subject : Option AllowedX509Subject → SubjectName → Outcome ErrorList
check_subject a s =
    ok (
      check_values (subject_path ++ "organizations" ∷ []) (subject_field (λ x. x.organizations) a)
        s.organization)
    ▸ list_field "countries" (subject_field (λ x. x.countries) a) s.country
    ▸ list_field "organizationalUnits" (subject_field (λ x. x.organizational_units) a)
        s.organizational_unit
    ▸ list_field "localities" (subject_field (λ x. x.localities) a) s.locality
    ▸ list_field "provinces" (subject_field (λ x. x.provinces) a) s.province
    ▸ list_field "streetAddresses" (subject_field (λ x. x.street_addresses) a) s.street_address
    ▸ list_field "postalCodes" (subject_field (λ x. x.postal_codes) a) s.postal_code
    ▸ check_serial_number (subject_field (λ x. x.serial_number) a) s.serial_number

-- `new(policyapi.CertificateRequestPolicyAllowed)`
abbrev pub empty_allowed : Allowed
empty_allowed = record {
  common_name = none;
  dns_names = none;
  ip_addresses = none;
  uris = none;
  email_addresses = none;
  is_ca = none;
  usages = none;
  subject = none;
}

abbrev pub allowed_of : CertificateRequestPolicy → Allowed
allowed_of policy = elim policy.spec.allowed [ none ↦ empty_allowed | some allowed ↦ allowed ]

module _ (library : Library) where
  open library use {Url, decode_csr, aggregate_error, ip_string, url_string}

  -- The checks before those of the subject, in the order of the source.
  unfoldable pub check_request : Allowed → CertificateRequest → Csr Url → Outcome ErrorList
  check_request a request csr =
      ok (check_common_name a.common_name csr.subject.common_name)
      ▸ ok (check_values (allowed_path ++ "dnsNames" ∷ []) a.dns_names csr.dns_names)
      ▸ ok (
          check_values (allowed_path ++ "ipAddresses" ∷ []) a.ip_addresses
            (map ip_string csr.ip_addresses))
      ▸ ok (check_values (allowed_path ++ "uris" ∷ []) a.uris (map url_string csr.uris))
      ▸ ok (
          check_values (allowed_path ++ "emailAddresses" ∷ []) a.email_addresses
            csr.email_addresses)
      ▸ ok (check_is_ca a.is_ca request.is_ca)
      ▸ ok (check_usages a.usages request.usages)
      ▸ check_subject a.subject csr.subject

  -- `len(el) > 0` tells a denial.
  abbrev pub respond : ErrorList → EvaluationResponse
  respond [] = record { result = not_denied; message = "" }
  respond (e ∷ el) = record { result = denied; message = aggregate_error (e ∷ el) }

  -- `Evaluate`
  unfoldable pub evaluate :
      CertificateRequestPolicy → CertificateRequest → Outcome EvaluationResponse
  evaluate policy request = do
    let allowed = allowed_of policy
    csr ← decode_csr request.request
    el ← check_request allowed request csr
    ok (respond el)
