-- ===== src/Webhook.antt =====
-- pkg/internal/webhook: the admission webhook for CertificateRequestPolicies. Its lock guards the
-- decoder, so a run is a sequence of the calls below.
pub mod Order
pub mod Errors
pub mod Decides
use cert_manager_approver_po.Common.{
  ℕ, String, Bool, true, false, not, ◌&&◌, Option, none, some, List, [], ◌∷◌, ◌++◌, map, Outcome,
  ok, err, panic, Error, ◌>>=◌, if◌then◌else◌, is_nil, str_eq, str_lt, ◌+++◌,
}
use cert_manager_approver_po.Common.Sort.{sort_stable}
use cert_manager_approver_po.Field.{
  FieldPath, text, entries, invalid, required, not_supported, ErrorList,
}
use cert_manager_approver_po.Policy.{
  PluginData, SelectorIssuerRef, SelectorNamespace, Selector, CertificateRequestPolicy,
}
use cert_manager_approver_po.Cluster.{Labels}
use cert_manager_approver_po.Approver.{Approver, Webhook, WebhookValidationResponse}
use cert_manager_approver_po.Registry.{Registry}

-- `metav1.GroupVersionKind`
pub record Kind : Type 0 where
  pub group : String
  pub version : String
  pub kind : String

-- Of `admission.Request`, what the handler reads: the kind, and the object for the decoder.
pub record AdmissionRequest : Type 0 where
  pub request_kind : Option Kind
  pub object : List ℕ

-- The calls `admission.Errored`, `Denied` and `Allowed` with their arguments.
pub data Response : Type 0 where
  errored : ℕ → Error → Response
  refused permitted : String → Response

-- What the webhook takes from controller-runtime and apimachinery.
pub record AdmissionLibrary : Type 1 where
  -- `admission.Decoder` and its `Decode`, on a pointer that may be nil
  pub Decoder : Type 0
  pub decode : Option Decoder → AdmissionRequest → Outcome CertificateRequestPolicy
  -- `metav1.LabelSelectorAsSelector` of labels to match
  pub label_selector : Labels → Outcome (Labels → Bool)
  -- `err.Error()`
  pub error_text : Error → String
  -- `el.ToAggregate().Error()`
  pub aggregate_error : ErrorList → String

-- The registered plugins of `Register`: all approvers but the two built in.
unfoldable pub plugin_names : List Approver → List String
plugin_names [] = []
plugin_names (a ∷ approvers) =
    let rest = plugin_names approvers in
    if not (str_eq a.name "allowed") && not (str_eq a.name "constraints")
    then a.name ∷ rest
    else rest

-- The inner loop over the known plugins.
unfoldable pub is_known : List String → String → Bool
is_known [] name = false
is_known (known ∷ plugins) name = if str_eq name known then true else is_known plugins name

-- The loop over the policy's plugins. A map's entries come in any order.
unfoldable pub unrecognised : List String → List (String × PluginData) → List String
unrecognised known [] = []
unrecognised known ((name, data') ∷ plugins) =
    let rest = unrecognised known plugins in if is_known known name then rest else name ∷ rest

unfoldable pub plugin_errors : List String → List (String × PluginData) → ErrorList
plugin_errors known plugins =
    map (λ name. not_supported ("spec" ∷ "plugins" ∷ []) (text name) known)
      (sort_stable str_lt (unrecognised known plugins))

unfoldable pub selector_errors : Option SelectorIssuerRef → Option SelectorNamespace → ErrorList
selector_errors none none =
    required ("spec" ∷ "selector" ∷ [])
      "one of issuerRef or namespace must be defined, hint: `{}` on either matches everything"
    ∷ []
selector_errors none (some n) = []
selector_errors (some i) namespace = []

-- The loop over the webhooks, from the errors collected so far.
unfoldable pub webhook_errors :
    List Webhook → CertificateRequestPolicy → ErrorList → Outcome ErrorList
webhook_errors [] policy el = ok el
webhook_errors (webhook ∷ webhooks) policy el = do
  response ← webhook.validate policy
  webhook_errors webhooks policy (if not response.allowed then el ++ response.errors else el)

module _ (library : AdmissionLibrary) where
  open library use {Decoder, decode, label_selector, error_text, aggregate_error}

  pub record Validator : Type 0 where
    pub registered_plugins : List String
    pub webhooks : List Webhook
    pub decoder : Option Decoder

  -- The validator that `Register` makes.
  unfoldable pub new_validator : Registry → List Webhook → Validator
  new_validator registry webhooks = record {
    registered_plugins = plugin_names registry.approvers;
    webhooks = webhooks;
    decoder = none;
  }

  unfoldable pub parse_errors : Labels → Outcome (Labels → Bool) → Outcome ErrorList
  parse_errors labels (ok selector) = ok []
  parse_errors labels (err e) = ok (
      invalid ("spec" ∷ "selector" ∷ "namespace" ∷ "matchLabels" ∷ []) (entries labels)
        (error_text e)
      ∷ [])
  parse_errors labels panic = panic

  unfoldable pub label_list_errors : Option Labels → Outcome ErrorList
  unfolding parse_errors
  label_list_errors none = ok []
  label_list_errors (some []) = ok []
  label_list_errors (some (l ∷ labels)) = parse_errors (l ∷ labels) (label_selector (l ∷ labels))

  unfoldable pub label_errors : Option SelectorNamespace → Outcome ErrorList
  unfolding label_list_errors
  label_errors none = ok []
  label_errors (some selector) = label_list_errors selector.match_labels

  -- `certificateRequestPolicy`
  unfoldable pub certificate_request_policy :
      Validator → CertificateRequestPolicy → Outcome ErrorList
  certificate_request_policy v policy = do
    let selector = policy.spec.selector
    labels ← label_errors selector.namespace
    webhook_errors v.webhooks policy (
        plugin_errors v.registered_plugins policy.spec.plugins
        ++ (selector_errors selector.issuer_ref selector.namespace ++ labels))

  unfoldable pub respond : Outcome ErrorList → Outcome Response
  respond (ok []) = ok (permitted "CertificateRequestPolicy validated")
  respond (ok (e ∷ el)) = ok (refused (aggregate_error (e ∷ el)))
  respond (err e) = ok (errored 500 e)
  respond panic = panic

  unfoldable pub respond_decoded : Validator → Outcome CertificateRequestPolicy → Outcome Response
  respond_decoded v (ok policy) = respond (certificate_request_policy v policy)
  respond_decoded v (err e) = ok (errored 400 e)
  respond_decoded v panic = panic

  abbrev pub is_policy_kind : Kind → Bool
  is_policy_kind k =
      str_eq k.group "policy.cert-manager.io"
      && str_eq k.version "v1alpha1"
      && str_eq k.kind "CertificateRequestPolicy"

  unfoldable pub handle_kind : Validator → AdmissionRequest → Option Kind → Outcome Response
  handle_kind v req none = ok (errored 400 (Error.message "no resource kind sent in request"))
  handle_kind v req (some k) =
      if is_policy_kind k
      then respond_decoded v (decode v.decoder req)
      else ok (
          refused (
            "validation request for unrecognised resource type: " +++ k.group +++ "/" +++ k.version
            +++ " " +++ k.kind))

  -- `Handle`
  unfoldable pub handle : Validator → AdmissionRequest → Outcome Response
  handle v req = handle_kind v req req.request_kind

  -- `InjectDecoder`
  unfoldable pub inject_decoder : Validator → Decoder → Validator
  inject_decoder v d = record v { decoder = some d }

  -- `check`, the test for readiness
  unfoldable pub check : Validator → Outcome (Unit {0})
  check v = elim v.decoder [ some d ↦ ok tt | none ↦ err (Error.message "not ready") ]
