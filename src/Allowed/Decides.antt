-- ===== src/Allowed/Decides.antt =====
-- pkg/internal/approver/allowed/evaluator.go: the evaluator as a whole against what a policy permits.
use cert_manager_approver_po.Common.{
  ◌≡◌, refl, ◌↔◌, ◌⊎◌, inl, inr, Option, [], ◌∷◌, map, Outcome, ok, err, panic, ◌>>=◌,
}
use cert_manager_approver_po.Field.{ErrorList}
use cert_manager_approver_po.Policy.{AllowedX509Subject, Allowed, CertificateRequestPolicy}
use cert_manager_approver_po.Request.{CertificateRequest, SubjectName, Csr}
use cert_manager_approver_po.Library.{Library}
use cert_manager_approver_po.Approver.{EvaluationResponse, not_denied}
use cert_manager_approver_po.Allowed.Evaluate.{
  subject_field, check_subject, check_request, evaluate, respond, allowed_of,
}
use cert_manager_approver_po.Allowed.Permits.{
  PermitsValues, PermitsText, PermitsCa, PermitsUsages, PermitsSubject, Permits, DanglingSubject,
}
use cert_manager_approver_po.Allowed.Checks.{
  Judges, Answers, ▸-Answers, Answers-map, ok-Answers, check_values_iff,
  check_values_unguarded-Answers, check_common_name_iff, check_serial_number-Answers,
  check_is_ca_iff, check_usages_iff,
}

drop_false : {D : Type 0} → (⊥ ⊎ D) ↔ D
drop_false = (λ h. elim h [ inl x ↦ absurd x | inr d ↦ d ], inr)

module _ (a : Option AllowedX509Subject) (s : SubjectName) where
  abbrev SubjectParts : Type 0
  SubjectParts =
      PermitsValues (subject_field (λ x. x.organizations) a) s.organization
      × (PermitsValues (subject_field (λ x. x.countries) a) s.country
          × (PermitsValues (subject_field (λ x. x.organizational_units) a) s.organizational_unit
              × (PermitsValues (subject_field (λ x. x.localities) a) s.locality
                  × (PermitsValues (subject_field (λ x. x.provinces) a) s.province
                      × (PermitsValues (subject_field (λ x. x.street_addresses) a) s.street_address
                          × (PermitsValues (subject_field (λ x. x.postal_codes) a) s.postal_code
                              × PermitsText (subject_field (λ x. x.serial_number) a)
                                  s.serial_number))))))

  subject_parts : SubjectParts ↔ PermitsSubject a s
  subject_parts = (
    λ (o, (c, (u, (l, (p, (t, (z, n))))))). record {
      organizations = o;
      countries = c;
      organizational_units = u;
      localities = l;
      provinces = p;
      street_addresses = t;
      postal_codes = z;
      serial_number = n;
    },
    λ p. (
      p.organizations,
      (
        p.countries,
        (
          p.organizational_units,
          (p.localities, (p.provinces, (p.street_addresses, (p.postal_codes, p.serial_number)))),
        ),
      ),
    ),
  )

  check_subject-Answers : Answers (PermitsSubject a s) (DanglingSubject a s) (check_subject a s)
  unfolding check_subject
  check_subject-Answers = Answers-map subject_parts drop_false (
      ▸-Answers (ok-Answers (check_values_iff _ _ s.organization)) (
        ▸-Answers (check_values_unguarded-Answers _ _ s.country) (
          ▸-Answers (check_values_unguarded-Answers _ _ s.organizational_unit) (
            ▸-Answers (check_values_unguarded-Answers _ _ s.locality) (
              ▸-Answers (check_values_unguarded-Answers _ _ s.province) (
                ▸-Answers (check_values_unguarded-Answers _ _ s.street_address) (
                  ▸-Answers (check_values_unguarded-Answers _ _ s.postal_code)
                    (check_serial_number-Answers _ s.serial_number))))))))

module _ (library : Library) where
  open library use {Url, decode_csr, ip_string, url_string}

  module _ (a : Allowed) (request : CertificateRequest) (csr : Csr Url) where
    abbrev RequestParts : Type 0
    RequestParts =
        PermitsText a.common_name csr.subject.common_name
        × (PermitsValues a.dns_names csr.dns_names
            × (PermitsValues a.ip_addresses (map ip_string csr.ip_addresses)
                × (PermitsValues a.uris (map url_string csr.uris)
                    × (PermitsValues a.email_addresses csr.email_addresses
                        × (PermitsCa a.is_ca request.is_ca
                            × (PermitsUsages a.usages request.usages
                                × PermitsSubject a.subject csr.subject))))))

    request_parts : RequestParts ↔ Permits library a request csr
    request_parts = (
      λ (c, (d, (i, (u, (e, (ca, (g, s))))))). record {
        common_name = c;
        dns_names = d;
        ip_addresses = i;
        uris = u;
        email_addresses = e;
        is_ca = ca;
        usages = g;
        subject = s;
      },
      λ p. (
        p.common_name,
        (
          p.dns_names,
          (p.ip_addresses, (p.uris, (p.email_addresses, (p.is_ca, (p.usages, p.subject))))),
        ),
      ),
    )

    drop_falses : {D : Type 0} → (⊥ ⊎ (⊥ ⊎ (⊥ ⊎ (⊥ ⊎ (⊥ ⊎ (⊥ ⊎ (⊥ ⊎ D))))))) ↔ D
    drop_falses = (
      λ h. drop_false.0 (
          drop_false.0
            (drop_false.0 (drop_false.0 (drop_false.0 (drop_false.0 (drop_false.0 h)))))),
      λ d. inr (inr (inr (inr (inr (inr (inr d)))))),
    )

    check_request-Answers :
        Answers
          (Permits library a request csr)
          (DanglingSubject a.subject csr.subject)
          (check_request library a request csr)
    unfolding check_request
    check_request-Answers = Answers-map request_parts drop_falses (
        ▸-Answers (ok-Answers (check_common_name_iff _ csr.subject.common_name)) (
          ▸-Answers (ok-Answers (check_values_iff _ _ csr.dns_names)) (
            ▸-Answers (ok-Answers (check_values_iff _ _ (map ip_string csr.ip_addresses))) (
              ▸-Answers (ok-Answers (check_values_iff _ _ (map url_string csr.uris))) (
                ▸-Answers (ok-Answers (check_values_iff _ _ csr.email_addresses)) (
                  ▸-Answers (ok-Answers (check_is_ca_iff _ request.is_ca)) (
                    ▸-Answers (ok-Answers (check_usages_iff _ request.usages))
                      (check_subject-Answers a.subject csr.subject))))))))

  respond-not_denied_iff : (el : ErrorList) → ((respond library el).result ≡ not_denied) ↔ (el ≡ [])
  respond-not_denied_iff [] = (λ h. refl, λ h. refl)
  respond-not_denied_iff (e ∷ el) = (λ h. cc, λ h. cc)

  -- The evaluator's answer to a decoded request, from its list of errors.
  abbrev Evaluates : Type 0 → Type 0 → Outcome EvaluationResponse → Type 0
  Evaluates P D (ok r) = ((r.result ≡ not_denied) ↔ P) × ¬ D
  Evaluates P D (err e) = ⊥
  Evaluates P D panic = D

  Judges-Evaluates :
      (P D : Type 0) (m : Outcome ErrorList)
      → Judges P D m
      → Evaluates P D (m >>= λ el. ok (respond library el))
  Judges-Evaluates P D (ok el) (h, n) =
      let (to, from) = respond-not_denied_iff el in ((λ e. h.0 (to e), λ p. from (h.1 p)), n)
  Judges-Evaluates P D (err e) h = h
  Judges-Evaluates P D panic h = h

  -- `Evaluates` under a name that keeps its arguments.
  record Decides (P D : Type 0) (m : Outcome EvaluationResponse) : Type 0 where
    decided : Evaluates P D m

  Answers-Decides :
      {P D : Type 0} {m : Outcome ErrorList}
      → Answers P D m
      → Decides P D (m >>= λ el. ok (respond library el))
  Answers-Decides {P} {D} {m} h = record { decided = Judges-Evaluates P D m h.judged }

  Evaluates-panic_iff :
      (P D : Type 0) (m : Outcome EvaluationResponse) → Evaluates P D m → (m ≡ panic) ↔ D
  Evaluates-panic_iff P D (ok r) h = (λ e. cc, λ d. absurd (h.1 d))
  Evaluates-panic_iff P D (err e) h = absurd h
  Evaluates-panic_iff P D panic h = (λ e. h, λ d. refl)

  Decides-panic_iff :
      {P D : Type 0} {m : Outcome EvaluationResponse} → Decides P D m → (m ≡ panic) ↔ D
  Decides-panic_iff {P} {D} {m} h = Evaluates-panic_iff P D m h.decided

  Evaluates-returns :
      (P D : Type 0) (m : Outcome EvaluationResponse)
      → Evaluates P D m
      → ¬ D
      → (r : EvaluationResponse) × (m ≡ ok r) × ((r.result ≡ not_denied) ↔ P)
  Evaluates-returns P D (ok r) h n = (r, refl, h.0)
  Evaluates-returns P D (err e) h n = absurd h
  Evaluates-returns P D panic h n = absurd (n h)

  Decides-returns :
      {P D : Type 0} {m : Outcome EvaluationResponse}
      → Decides P D m
      → ¬ D
      → (r : EvaluationResponse) × (m ≡ ok r) × ((r.result ≡ not_denied) ↔ P)
  Decides-returns {P} {D} {m} h = Evaluates-returns P D m h.decided

  module _ (policy : CertificateRequestPolicy) (request : CertificateRequest) (csr : Csr Url)
      (decoded : decode_csr request.request ≡ ok csr) where
    evaluate-Decides :
        Decides
          (Permits library (allowed_of policy) request csr)
          (DanglingSubject (allowed_of policy).subject csr.subject)
          (evaluate library policy request)
    unfolding evaluate
    evaluate-Decides =
        rw decoded (Answers-Decides (check_request-Answers (allowed_of policy) request csr))

    -- For a request that decodes, the evaluator panics exactly when the request has one of the
    -- subject's fields countries, organizational units, localities, provinces, street addresses,
    -- postal codes or serial number, and the policy names that field without giving it values.
    pub evaluate-panic_iff :
        (evaluate library policy request ≡ panic)
        ↔ DanglingSubject (allowed_of policy).subject csr.subject
    evaluate-panic_iff = Decides-panic_iff evaluate-Decides

    -- For a request that decodes and meets no such field, the evaluator returns a response, and it
    -- is `not_denied` exactly when the policy's `allowed` block permits the request: every
    -- attribute present is within the policy's values, and every required one is present.
    pub evaluate-Permits_iff :
        ¬ DanglingSubject (allowed_of policy).subject csr.subject
        → (r : EvaluationResponse) × (evaluate library policy request ≡ ok r)
          × ((r.result ≡ not_denied) ↔ Permits library (allowed_of policy) request csr)
    evaluate-Permits_iff safe = Decides-returns evaluate-Decides safe
