-- ===== src/Builtin/Admits.antt =====
-- Which policies the repository's own build admits.
use cert_manager_approver_po.Common.{
  ◌≡◌, refl, ap, ◌↔◌, inl, inr, String, true, some, List, [], ◌∷◌, ok, All, iff_trans,
}
use cert_manager_approver_po.Policy.{PluginData, CertificateRequestPolicy}
use cert_manager_approver_po.Library.{Library}
use cert_manager_approver_po.Allowed.Admission.{AllIsBacked, validate-AllIsBacked_iff}
use cert_manager_approver_po.Allowed.Interface.{allowed_approver}
use cert_manager_approver_po.Constraints.Admission.{IsConsistent, validate-IsConsistent_iff}
use cert_manager_approver_po.Constraints.Interface.{constraints_approver}
use cert_manager_approver_po.Predicate.Filter.{In}
use cert_manager_approver_po.Registry.{Registry, webhooks}
use cert_manager_approver_po.Webhook.{
  Kind, AdmissionRequest, permitted, AdmissionLibrary, plugin_names, Validator, new_validator,
  inject_decoder, is_policy_kind, handle,
}
use cert_manager_approver_po.Webhook.Errors.{Agrees, IsSelected}
use cert_manager_approver_po.Webhook.Decides.{LabelsParse, Admissible, handle-Admissible_iff}
use cert_manager_approver_po.Builtin.{load_approvers}
use cert_manager_approver_po.Builtin.Sound.{load_approvers-approvers}

all_known_iff :
    (plugins : List (String × PluginData)) → All (λ p. In p.0 []) plugins ↔ (plugins ≡ [])
all_known_iff [] = (λ _. refl, λ _. tt)
all_known_iff (p ∷ plugins) = (λ (h, _). absurd h, λ h. cc)

module _ (library : Library) (admission : AdmissionLibrary) where
  -- A policy with no plugins, a selector, labels that parse, values for all that it requires, and
  -- consistent constraints.
  pub record WellFormed (policy : CertificateRequestPolicy) : Type 0 where
    pub plugins : policy.spec.plugins ≡ []
    pub selector : IsSelected policy.spec.selector.issuer_ref policy.spec.selector.namespace
    pub labels : LabelsParse admission policy.spec.selector.namespace
    pub allowed : AllIsBacked policy.spec.allowed
    pub constraints : IsConsistent policy.spec.constraints

  allowed-Agrees_iff :
      (policy : CertificateRequestPolicy)
      → Agrees policy (allowed_approver library).webhook ↔ AllIsBacked policy.spec.allowed
  allowed-Agrees_iff policy =
      let (s, returned, backed, clean) = validate-AllIsBacked_iff policy in
      (
        λ (r, h, agreed).
            let same : r ≡ s = cc in
            elim (rw same at agreed) [ inl a ↦ backed.0 a | inr e ↦ backed.0 (clean.1 e) ],
        λ b. (s, returned, inl (backed.1 b)),
      )

  constraints-Agrees_iff :
      (policy : CertificateRequestPolicy)
      → Agrees policy (constraints_approver library).webhook ↔ IsConsistent policy.spec.constraints
  constraints-Agrees_iff policy =
      let (s, returned, consistent, clean) = validate-IsConsistent_iff library policy in
      (
        λ (r, h, agreed).
            let same : r ≡ s = cc in
            elim (rw same at agreed) [ inl a ↦ consistent.0 a | inr e ↦ consistent.0 (clean.1 e) ],
        λ b. (s, returned, inl (consistent.1 b)),
      )

  -- The validator of the build, once the manager has given it a decoder.
  abbrev pub build_validator : Registry → admission.Decoder → Validator admission
  build_validator loaded decoder =
      inject_decoder admission (new_validator admission loaded (webhooks loaded)) decoder

  module _ (loaded : Registry) (load : load_approvers library ≡ ok loaded)
      (decoder : admission.Decoder) where
    build_plugins : (build_validator loaded decoder).registered_plugins ≡ []
    unfolding inject_decoder new_validator plugin_names
    build_plugins = ap plugin_names (load_approvers-approvers library loaded load)

    build_webhooks :
        (build_validator loaded decoder).webhooks
        ≡ (allowed_approver library).webhook ∷ (constraints_approver library).webhook ∷ []
    unfolding inject_decoder new_validator webhooks
    build_webhooks = rw (load_approvers-approvers library loaded load) refl

    Admissible-WellFormed :
        (policy : CertificateRequestPolicy)
        → Admissible admission (build_validator loaded decoder) policy ↔ WellFormed policy
    Admissible-WellFormed policy = (
      λ a.
          let (allowed, (constraints, _)) = rw build_webhooks at a.webhooks in
          record {
            plugins = (all_known_iff policy.spec.plugins).0 (rw build_plugins at a.plugins);
            selector = a.selector;
            labels = a.labels;
            allowed = (allowed-Agrees_iff policy).0 allowed;
            constraints = (constraints-Agrees_iff policy).0 constraints;
          },
      λ w. record {
        plugins = rw build_plugins ((all_known_iff policy.spec.plugins).1 w.plugins);
        selector = w.selector;
        labels = w.labels;
        webhooks = rw build_webhooks (
          (allowed-Agrees_iff policy).1 w.allowed,
          ((constraints-Agrees_iff policy).1 w.constraints, tt),
        );
      },
    )

    -- In the repository's own build, for a request that names the kind of the policies and decodes:
    -- the webhook admits the policy exactly when it names no plugins, has a selector, its labels to
    -- match parse, every field its `allowed` block requires has values, and its constraints are
    -- consistent.
    pub handle-WellFormed_iff :
        (req : AdmissionRequest) (k : Kind) (policy : CertificateRequestPolicy)
        → req.request_kind ≡ some k
        → is_policy_kind admission k ≡ true
        → admission.decode (build_validator loaded decoder).decoder req ≡ ok policy
        → ((message : String) × (handle admission (build_validator loaded decoder) req
              ≡ ok (permitted message)))
          ↔ WellFormed policy
    handle-WellFormed_iff req k policy present kind decoded =
        iff_trans
          (handle-Admissible_iff admission (build_validator loaded decoder) req k policy present
            kind decoded)
          (Admissible-WellFormed policy)
