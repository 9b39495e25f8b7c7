-- ===== src/Tests/Webhook.antt =====
-- pkg/internal/webhook at small inputs.
use mathlib.Core.List.{Permᴰ}
use cert_manager_approver_po.Common.{
  ℕ, ◌≡◌, refl, ◌↔◌, String, true, none, some, [], ◌∷◌, ok, err, Error,
}
use cert_manager_approver_po.Policy.{PluginData}
use cert_manager_approver_po.Registry.{Registry, store, has_conflict, has_name_of}
use cert_manager_approver_po.Allowed.Interface.{allowed_approver}
use cert_manager_approver_po.Constraints.Interface.{constraints_approver}
use cert_manager_approver_po.Webhook.{
  Kind, AdmissionRequest, permitted, AdmissionLibrary, plugin_errors, Validator, inject_decoder,
  handle,
}
use cert_manager_approver_po.Webhook.Order.{plugin_errors_perm}
use cert_manager_approver_po.Webhook.Decides.{Admissible, handle-Admissible_iff}
use cert_manager_approver_po.Builtin.{load_approvers}
use cert_manager_approver_po.Builtin.Admits.{WellFormed, build_validator, handle-WellFormed_iff}
use cert_manager_approver_po.Tests.Fixtures.{demo, web_policy}

-- Decoding yields the policy of the other tests.
abbrev pub admission : AdmissionLibrary
admission = record {
  Decoder = ℕ;
  decode =
      λ decoder req. elim decoder [ none ↦ err (Error.reported "nil") | some d ↦ ok web_policy ];
  label_selector = λ labels. ok (λ l. true);
  error_text = λ e. "error";
  aggregate_error = λ el. "errors";
}

abbrev policy_kind : Kind
policy_kind = record {
  group = "policy.cert-manager.io";
  version = "v1alpha1";
  kind = "CertificateRequestPolicy";
}

abbrev policy_request : AdmissionRequest
policy_request = record { request_kind = some policy_kind; object = [] }

abbrev built : Registry
built = record { approvers = allowed_approver demo ∷ constraints_approver demo ∷ [] }

loads : load_approvers demo ≡ ok built
unfolding load_approvers store has_conflict has_name_of
loads = refl

abbrev plain : Validator admission
plain = record { registered_plugins = []; webhooks = []; decoder = some 1 }

handle-Admissible_iff_example :
    ((message : String) × (handle admission plain policy_request ≡ ok (permitted message)))
    ↔ Admissible admission plain web_policy
handle-Admissible_iff_example =
    handle-Admissible_iff admission plain policy_request policy_kind web_policy refl refl refl

decodes :
    admission.decode (build_validator demo admission built 1).decoder policy_request ≡ ok web_policy
unfolding inject_decoder
decodes = refl

handle-WellFormed_iff_example :
    ((message : String) × (handle admission (build_validator demo admission built 1) policy_request
        ≡ ok (permitted message)))
    ↔ WellFormed demo admission web_policy
handle-WellFormed_iff_example =
    handle-WellFormed_iff demo admission built loads 1 policy_request policy_kind web_policy refl
      refl decodes

abbrev bare : PluginData
bare = record { values = [] }

plugin_errors_perm_example :
    plugin_errors ("a" ∷ []) (("b", bare) ∷ ("c", bare) ∷ [])
    ≡ plugin_errors ("a" ∷ []) (("c", bare) ∷ ("b", bare) ∷ [])
plugin_errors_perm_example =
    plugin_errors_perm ("a" ∷ []) (("b", bare) ∷ ("c", bare) ∷ []) (("c", bare) ∷ ("b", bare) ∷ [])
      (Permᴰ.swap refl refl)
