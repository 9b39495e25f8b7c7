-- ===== src/Allowed/Admission.antt =====
-- pkg/internal/approver/allowed/validation.go: what a policy's `allowed` block must meet to be
-- admitted.
use mathlib.Core.Option.{some-ne-none}
use cert_manager_approver_po.Common.{
  String, ◌≡◌, refl, sym, ◌↔◌, Bool, true, false, Option, none, some, List, [], ◌∷◌, ◌++◌, ok,
  append-eq-nil, All, is_nil_iff,
}
use cert_manager_approver_po.Field.{FieldError}
use cert_manager_approver_po.Policy.{
  AllowedStringSlice, AllowedString, AllowedX509Subject, Allowed, CertificateRequestPolicy,
}
use cert_manager_approver_po.Approver.{WebhookValidationResponse}
use cert_manager_approver_po.Allowed.Evaluate.{values_of, value_of, is_required, is_required_string}
use cert_manager_approver_po.Allowed.Validate.{
  SlicePair, StringPair, string_slices, strings, slice_errors, string_errors, unbacked,
  validate_allowed, validate,
}

-- A field that requests must have names values for it.
abbrev pub IsBacked : Option AllowedStringSlice → Type 0
IsBacked slice = is_required slice ≡ true → (values : List String) × (values_of slice ≡ some values)

abbrev pub IsBackedText : Option AllowedString → Type 0
IsBackedText string =
    is_required_string string ≡ true → (value : String) × (value_of string ≡ some value)

abbrev pub IsBackedSubject : Option AllowedX509Subject → Type 0
IsBackedSubject none = Unit
IsBackedSubject (some s) =
    IsBacked s.organizations
    × IsBacked s.countries
    × IsBacked s.organizational_units
    × IsBacked s.localities
    × IsBacked s.provinces
    × IsBacked s.street_addresses
    × IsBacked s.postal_codes
    × IsBackedText s.serial_number

abbrev pub AllIsBacked : Option Allowed → Type 0
AllIsBacked none = Unit
AllIsBacked (some a) =
    IsBackedText a.common_name
    × IsBacked a.dns_names
    × IsBacked a.ip_addresses
    × IsBacked a.uris
    × IsBacked a.email_addresses
    × IsBackedSubject a.subject

unbacked_iff {ℓ} :
    {A : Type ℓ} (required : Bool) (values : Option A) (e : FieldError)
    → (unbacked required values e ≡ []) ↔ (required ≡ true → (v : A) × (values ≡ some v))
unfolding unbacked
unbacked_iff true none e = (λ h. cc, λ h. absurd (some-ne-none _ (sym (h refl).1)))
unbacked_iff true (some v) e = (λ h _. (v, refl), λ h. refl)
unbacked_iff false values e = (λ h k. cc, λ h. refl)

slice_errors_iff :
    (pairs : List SlicePair) → (slice_errors pairs ≡ []) ↔ All (λ p. IsBacked p.1) pairs
unfolding slice_errors
slice_errors_iff [] = (λ h. tt, λ h. refl)
slice_errors_iff ((path, slice) ∷ pairs) =
    let (head_to, head_from) = unbacked_iff (is_required slice) (values_of slice) _ in
    let (tail_to, tail_from) = slice_errors_iff pairs in
    let (split, joined) = append-eq-nil _ (slice_errors pairs) in
    (λ h. (head_to (split h).0, tail_to (split h).1), λ (b, bs). joined (head_from b, tail_from bs))

string_errors_iff :
    (pairs : List StringPair) → (string_errors pairs ≡ []) ↔ All (λ p. IsBackedText p.1) pairs
unfolding string_errors
string_errors_iff [] = (λ h. tt, λ h. refl)
string_errors_iff ((path, string) ∷ pairs) =
    let (head_to, head_from) = unbacked_iff (is_required_string string) (value_of string) _ in
    let (tail_to, tail_from) = string_errors_iff pairs in
    let (split, joined) = append-eq-nil _ (string_errors pairs) in
    (λ h. (head_to (split h).0, tail_to (split h).1), λ (b, bs). joined (head_from b, tail_from bs))

-- The two lists hold the fields of the block.
pairs-AllIsBacked :
    (a : Allowed)
    → (All (λ p. IsBacked p.1) (string_slices a) × All (λ p. IsBackedText p.1) (strings a))
      ↔ AllIsBacked (some a)
pairs-AllIsBacked a = go a.subject
  where
    go :
        (subject : Option AllowedX509Subject)
        → (All (λ p. IsBacked p.1) (string_slices (record a { subject = subject }))
            × All (λ p. IsBackedText p.1) (strings (record a { subject = subject })))
          ↔ AllIsBacked (some (record a { subject = subject }))
    go none = (
      λ ((d, (i, (u, (e, _)))), (c, _)). (c, d, i, u, e, tt),
      λ (c, d, i, u, e, _). ((d, (i, (u, (e, tt)))), (c, tt)),
    )
    go (some s) = (
      λ ((d, (i, (u, (e, (o, (cs, (us, (l, (p, (st, (z, _))))))))))), (c, (n, _))).
          (c, d, i, u, e, (o, cs, us, l, p, st, z, n)),
      λ (c, d, i, u, e, (o, cs, us, l, p, st, z, n)).
          ((d, (i, (u, (e, (o, (cs, (us, (l, (p, (st, (z, tt))))))))))), (c, (n, tt))),
    )

validate_allowed_iff :
    (allowed : Option Allowed)
    → (((validate_allowed allowed).allowed ≡ true) ↔ AllIsBacked allowed)
      × (((validate_allowed allowed).allowed ≡ true) ↔ ((validate_allowed allowed).errors ≡ []))
unfolding validate_allowed
validate_allowed_iff none = ((λ h. tt, λ h. refl), (λ h. refl, λ h. refl))
validate_allowed_iff (some a) =
    let el = slice_errors (string_slices a) ++ string_errors (strings a) in
    let (empty_to, empty_from) = is_nil_iff el in
    let (split, joined) =
      append-eq-nil (slice_errors (string_slices a)) (string_errors (strings a)) in
    let (slices_to, slices_from) = slice_errors_iff (string_slices a) in
    let (strings_to, strings_from) = string_errors_iff (strings a) in
    let (backed_to, backed_from) = pairs-AllIsBacked a in
    (
      (
        λ h. let (s, t) = split (empty_to h) in backed_to (slices_to s, strings_to t),
        λ b. let (s, t) = backed_from b in empty_from (joined (slices_from s, strings_from t)),
      ),
      (empty_to, empty_from),
    )

-- The validation returns a response for every policy. It allows the policy exactly when each list
-- or text of the `allowed` block that is required names values, and it allows it exactly when it
-- returns no errors.
pub validate-AllIsBacked_iff :
    (policy : CertificateRequestPolicy)
    → (r : WebhookValidationResponse) × (validate policy ≡ ok r)
      × ((r.allowed ≡ true) ↔ AllIsBacked policy.spec.allowed)
      × ((r.allowed ≡ true) ↔ (r.errors ≡ []))
unfolding validate
validate-AllIsBacked_iff policy =
    let (backed, clean) = validate_allowed_iff policy.spec.allowed in
    (validate_allowed policy.spec.allowed, refl, backed, clean)
