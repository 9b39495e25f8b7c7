-- ===== src/Webhook/Decides.antt =====
-- pkg/internal/webhook/validator.go: what a policy must meet to be admitted.
use cert_manager_approver_po.Common.{
  ◌≡◌, refl, sym, ◌∙◌, ap, ◌↔◌, String, Bool, true, Option, none, some, [], ◌∷◌, ◌++◌, Outcome, ok,
  err, panic, ◌>>=◌, All, append-eq-nil, iff_trans,
}
use cert_manager_approver_po.Field.{ErrorList}
use cert_manager_approver_po.Policy.{SelectorNamespace, CertificateRequestPolicy}
use cert_manager_approver_po.Cluster.{Labels}
use cert_manager_approver_po.Predicate.Filter.{In}
use cert_manager_approver_po.Webhook.{
  Kind, AdmissionRequest, permitted, AdmissionLibrary, plugin_errors, selector_errors,
  webhook_errors, Validator, parse_errors, label_list_errors, label_errors,
  certificate_request_policy, respond, respond_decoded, is_policy_kind, handle_kind, handle,
}
use cert_manager_approver_po.Webhook.Errors.{
  Agrees, IsSelected, plugin_errors_iff, selector_errors_iff, ok_nil_iff, webhook_errors_iff,
}

module _ (library : AdmissionLibrary) where
  -- Labels to match, where there are any, make a selector.
  abbrev pub IsParsed : Option Labels → Type 0
  IsParsed none = Unit
  IsParsed (some []) = Unit
  IsParsed (some (l ∷ labels)) =
      (selector : Labels → Bool) × (library.label_selector (l ∷ labels) ≡ ok selector)

  abbrev pub LabelsParse : Option SelectorNamespace → Type 0
  LabelsParse none = Unit
  LabelsParse (some selector) = IsParsed selector.match_labels

  -- What a policy must meet to be admitted by the validator.
  pub record Admissible (v : Validator library) (policy : CertificateRequestPolicy) : Type 0 where
    pub plugins : All (λ p. In p.0 v.registered_plugins) policy.spec.plugins
    pub selector : IsSelected policy.spec.selector.issuer_ref policy.spec.selector.namespace
    pub labels : LabelsParse policy.spec.selector.namespace
    pub webhooks : All (Agrees policy) v.webhooks

  parse_errors_iff :
      (labels : Labels) (m : Outcome (Labels → Bool))
      → (parse_errors library labels m ≡ ok []) ↔ ((s : Labels → Bool) × (m ≡ ok s))
  unfolding parse_errors
  parse_errors_iff labels (ok s) = (λ _. (s, refl), λ _. refl)
  parse_errors_iff labels (err e) = (λ h. cc, λ (s, h). cc)
  parse_errors_iff labels panic = (λ h. cc, λ (s, h). cc)

  label_list_errors_iff :
      (labels : Option Labels) → (label_list_errors library labels ≡ ok []) ↔ IsParsed labels
  unfolding label_list_errors
  label_list_errors_iff none = (λ _. tt, λ _. refl)
  label_list_errors_iff (some []) = (λ _. tt, λ _. refl)
  label_list_errors_iff (some (l ∷ labels)) =
      parse_errors_iff (l ∷ labels) (library.label_selector (l ∷ labels))

  label_errors_iff :
      (selector : Option SelectorNamespace)
      → (label_errors library selector ≡ ok []) ↔ LabelsParse selector
  unfolding label_errors
  label_errors_iff none = (λ _. tt, λ _. refl)
  label_errors_iff (some s) = label_list_errors_iff s.match_labels

  -- The errors before the webhooks are an end of the list that the webhooks extend.
  bind_iff :
      (m : Outcome ErrorList) (before : ErrorList) (next : ErrorList → Outcome ErrorList)
      (Rest : Type 0)
      → ((el : ErrorList) → (next el ≡ ok []) ↔ ((el ≡ []) × Rest))
      → ((m >>= λ labels. next (before ++ labels)) ≡ ok []) ↔ ((before ≡ []) × (m ≡ ok []) × Rest)
  bind_iff panic before next Rest rest = (λ h. cc, λ (_, h, _). cc)
  bind_iff (err e) before next Rest rest = (λ h. cc, λ (_, h, _). cc)
  bind_iff (ok labels) before next Rest rest =
      let (split, joined) = append-eq-nil before labels in
      let (strip, unstrip) = ok_nil_iff labels in
      let (to, from) = rest (before ++ labels) in
      (
        λ h. let (e, r) = to h in ((split e).0, unstrip (split e).1, r),
        λ (b, l, r). from (joined (b, strip l), r),
      )

  policy_iff :
      (v : Validator library) (policy : CertificateRequestPolicy)
      → (certificate_request_policy library v policy ≡ ok []) ↔ Admissible v policy
  unfolding certificate_request_policy
  policy_iff v policy =
      let (names_to, names_from) = plugin_errors_iff v.registered_plugins policy.spec.plugins in
      let (sel_to, sel_from) =
        selector_errors_iff policy.spec.selector.issuer_ref policy.spec.selector.namespace in
      let (labels_to, labels_from) = label_errors_iff policy.spec.selector.namespace in
      let (to, from) =
        bind_iff (label_errors library policy.spec.selector.namespace)
          (selector_errors policy.spec.selector.issuer_ref policy.spec.selector.namespace)
          (λ el.
            webhook_errors v.webhooks policy
              (plugin_errors v.registered_plugins policy.spec.plugins ++ el))
          ((plugin_errors v.registered_plugins policy.spec.plugins ≡ [])
            × All (Agrees policy) v.webhooks)
          (λ el.
            let (split, joined) =
              append-eq-nil (plugin_errors v.registered_plugins policy.spec.plugins) el in
            let (w_to, w_from) =
              webhook_errors_iff v.webhooks policy
                (plugin_errors v.registered_plugins policy.spec.plugins ++ el) in
            (
              λ h. let (e, a) = w_to h in ((split e).1, ((split e).0, a)),
              λ (e, (p, a)). w_from (joined (p, e), a),
            )) in
      (
        λ h.
            let (s, l, (p, a)) = to h in
            record {
              plugins = names_to p;
              selector = sel_to s;
              labels = labels_to l;
              webhooks = a;
            },
        λ a. from (sel_from a.selector, labels_from a.labels, (names_from a.plugins, a.webhooks)),
      )

  respond_iff :
      (m : Outcome ErrorList)
      → ((message : String) × (respond library m ≡ ok (permitted message))) ↔ (m ≡ ok [])
  unfolding respond
  respond_iff (ok []) = (λ _. refl, λ _. (_, refl))
  respond_iff (ok (e ∷ el)) = (λ (_, h). cc, λ h. cc)
  respond_iff (err e) = (λ (_, h). cc, λ h. cc)
  respond_iff panic = (λ (_, h). cc, λ h. cc)

  handle_kind-some :
      (v : Validator library) (req : AdmissionRequest) (k : Kind)
      → is_policy_kind library k ≡ true
      → handle_kind library v req (some k)
        ≡ respond_decoded library v (library.decode v.decoder req)
  unfolding handle_kind
  handle_kind-some v req k kind = rw kind refl

  respond_decoded-ok :
      (v : Validator library) (m : Outcome CertificateRequestPolicy)
      (policy : CertificateRequestPolicy)
      → m ≡ ok policy
      → respond_decoded library v m ≡ respond library (certificate_request_policy library v policy)
  unfolding respond_decoded
  respond_decoded-ok v m policy e = rw e refl

  -- For a request that names the kind of the policies and decodes: the webhook admits the policy
  -- exactly when all its plugins are registered, it has a selector, its labels to match parse, and
  -- every registered webhook returns a response that allows the policy or has no errors.
  pub handle-Admissible_iff :
      (v : Validator library) (req : AdmissionRequest) (k : Kind)
      (policy : CertificateRequestPolicy)
      → req.request_kind ≡ some k
      → is_policy_kind library k ≡ true
      → library.decode v.decoder req ≡ ok policy
      → ((message : String) × (handle library v req ≡ ok (permitted message))) ↔ Admissible v policy
  unfolding handle
  handle-Admissible_iff v req k policy present kind decoded =
      let answer =
        ap (handle_kind library v req) present
        ∙ handle_kind-some v req k kind
        ∙ respond_decoded-ok v (library.decode v.decoder req) policy decoded in
      let (to, from) =
        iff_trans (respond_iff (certificate_request_policy library v policy))
          (policy_iff v policy) in
      (λ (t, h). to (t, sym answer ∙ h), λ a. let (t, h) = from a in (t, answer ∙ h))
