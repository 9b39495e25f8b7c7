-- ===== src/Allowed/Permits.antt =====
-- What a policy's `allowed` block permits: the attribute set of the request must lie within that of
-- the policy, and what the policy requires must be there. Nothing here refers to the evaluator.
use cert_manager_approver_po.Common.{
  String, Bool, true, false, ◌≡◌, ◌⊎◌, Option, none, some, List, [], ◌∷◌, map,
}
use cert_manager_approver_po.Policy.{AllowedStringSlice, AllowedString, AllowedX509Subject, Allowed}
use cert_manager_approver_po.Request.{CertificateRequest, SubjectName, Csr}
use cert_manager_approver_po.Library.{Library}
use cert_manager_approver_po.Wildcard.Meaning.{TextMatches, Subset}
use cert_manager_approver_po.Allowed.Evaluate.{
  is_required, is_required_string, values_of, value_of, subject_field,
}

-- A field that is absent must not be required; one that is present must have a subset of the values.
abbrev pub PermitsValues : Option AllowedStringSlice → List String → Type 0
PermitsValues allowed [] = is_required allowed ≡ false
PermitsValues allowed (g ∷ given) =
    (values : List String) × (values_of allowed ≡ some values) × Subset values (g ∷ given)

abbrev pub PermitsText : Option AllowedString → String → Type 0
PermitsText allowed String.[] = is_required_string allowed ≡ false
PermitsText allowed (String.◌∷◌ c given) =
    (value : String) × (value_of allowed ≡ some value) × TextMatches value (String.◌∷◌ c given)

-- A certificate of a CA must be allowed by name.
abbrev pub PermitsCa : Option Bool → Bool → Type 0
PermitsCa allowed false = Unit
PermitsCa allowed true = allowed ≡ some true

-- Usages cannot be required.
abbrev pub PermitsUsages : Option (List String) → List String → Type 0
PermitsUsages allowed [] = Unit
PermitsUsages allowed (u ∷ usages) =
    (values : List String) × (allowed ≡ some values) × Subset values (u ∷ usages)

pub record PermitsSubject (a : Option AllowedX509Subject) (s : SubjectName) : Type 0 where
  pub organizations : PermitsValues (subject_field (λ x. x.organizations) a) s.organization
  pub countries : PermitsValues (subject_field (λ x. x.countries) a) s.country
  pub organizational_units :
      PermitsValues (subject_field (λ x. x.organizational_units) a) s.organizational_unit
  pub localities : PermitsValues (subject_field (λ x. x.localities) a) s.locality
  pub provinces : PermitsValues (subject_field (λ x. x.provinces) a) s.province
  pub street_addresses : PermitsValues (subject_field (λ x. x.street_addresses) a) s.street_address
  pub postal_codes : PermitsValues (subject_field (λ x. x.postal_codes) a) s.postal_code
  pub serial_number : PermitsText (subject_field (λ x. x.serial_number) a) s.serial_number

module _ (library : Library) where
  open library use {Url, ip_string, url_string}

  pub record Permits (a : Allowed) (request : CertificateRequest) (csr : Csr Url) : Type 0 where
    pub common_name : PermitsText a.common_name csr.subject.common_name
    pub dns_names : PermitsValues a.dns_names csr.dns_names
    pub ip_addresses : PermitsValues a.ip_addresses (map ip_string csr.ip_addresses)
    pub uris : PermitsValues a.uris (map url_string csr.uris)
    pub email_addresses : PermitsValues a.email_addresses csr.email_addresses
    pub is_ca : PermitsCa a.is_ca request.is_ca
    pub usages : PermitsUsages a.usages request.usages
    pub subject : PermitsSubject a.subject csr.subject

-- The request has the field, and the policy names the field but gives it no values.
abbrev pub Dangling : Option AllowedStringSlice → List String → Type 0
Dangling allowed [] = ⊥
Dangling none (g ∷ given) = ⊥
Dangling (some a) (g ∷ given) = a.values ≡ none

abbrev pub DanglingText : Option AllowedString → String → Type 0
DanglingText allowed String.[] = ⊥
DanglingText none (String.◌∷◌ c given) = ⊥
DanglingText (some a) (String.◌∷◌ c given) = a.value ≡ none

-- Some field of the subject is dangling, of those that the evaluator reads without a test for nil.
abbrev pub DanglingSubject : Option AllowedX509Subject → SubjectName → Type 0
DanglingSubject a s =
    Dangling (subject_field (λ x. x.countries) a) s.country
    ⊎ (Dangling (subject_field (λ x. x.organizational_units) a) s.organizational_unit
        ⊎ (Dangling (subject_field (λ x. x.localities) a) s.locality
            ⊎ (Dangling (subject_field (λ x. x.provinces) a) s.province
                ⊎ (Dangling (subject_field (λ x. x.street_addresses) a) s.street_address
                    ⊎ (Dangling (subject_field (λ x. x.postal_codes) a) s.postal_code
                        ⊎ DanglingText (subject_field (λ x. x.serial_number) a) s.serial_number)))))
