-- ===== src/Tests/Requests.antt =====
-- pkg/internal/controllers/certificaterequests.go at small inputs.
use cert_manager_approver_po.Common.{
  ◌≡◌, refl, inl, inr, Bool, true, false, none, [], ◌∷◌, map, Outcome, ok, err, Error,
}
use cert_manager_approver_po.Request.{CertificateRequest}
use cert_manager_approver_po.Approver.{no_result}
use cert_manager_approver_po.Manager.Review.{ReviewResponse, new, review}
use cert_manager_approver_po.Predicate.Filter.{In}
use cert_manager_approver_po.Registry.{evaluators}
use cert_manager_approver_po.Controllers.Patch.{
  NamespacedName, PatchObject, ApplyPatch, patch_options, Effect, Reconciled, Client,
  generate_patch, finish, send, send_status, reconcile_with,
}
use cert_manager_approver_po.Controllers.Patch.Sends.{Source}
use cert_manager_approver_po.Controllers.Requests.{
  generate_request_patch, RequestStatus, RequestController, decide, decide_review, reconcile_found,
  reconcile_request_status, reconcile_request, undecided,
}
use cert_manager_approver_po.Controllers.Requests.Safe.{Justified, reconcile_request-Justified}
use cert_manager_approver_po.Controllers.Requests.Undecided.{passing, undecided-eq-map}
use cert_manager_approver_po.Tests.Fixtures.{demo, web_request}
use cert_manager_approver_po.Tests.Registry.{
  built, loads, swedish, swedish_cluster, approval, approves,
}

abbrev demo_client : Client RequestStatus
demo_client = record {
  marshal = λ configuration. ok (1 ∷ []);
  patch = λ object patch options. ok tt;
  is_not_found = λ e. false;
  aggregate = λ a b. b;
}

-- The controller with a manager that reviews as given.
abbrev controller_of : (CertificateRequest → Outcome ReviewResponse) → RequestController
controller_of reviewer = record {
  get_request = λ n. ok web_request;
  review = reviewer;
  client = demo_client;
  set_request_condition = λ conditions type status reason message.
      record {
        type = type;
        status = status;
        reason = reason;
        message = message;
        last_transition_time = none;
      }
      ∷ conditions;
}

abbrev build : RequestController
build =
    controller_of (λ cr. review demo swedish_cluster (new swedish_cluster (evaluators built)) cr)

abbrev web_name : NamespacedName
web_name = record { namespace = "team-a"; name = "web" }

abbrev web_object : PatchObject
web_object = record { namespaced_name = web_name }

abbrev web_patch : ApplyPatch
web_patch = record { patch = 1 ∷ [] }

abbrev sent_approval : Reconciled
sent_approval = record {
  result = no_result;
  error = none;
  effects =
      Effect.event web_name "Normal" "Approved" approval.message
      ∷ Effect.sent web_object web_patch patch_options
      ∷ [];
}

reconciled : reconcile_request build web_name ≡ ok sent_approval
unfolding reconcile_request reconcile_request_status reconcile_found decide_review decide
    reconcile_with send_status send finish generate_patch
reconciled = rw approves refl

is_sent : In (Effect.sent web_object web_patch patch_options) sent_approval.effects
is_sent = inr (inl refl)

reconcile_request-Justified_example :
    (cr : CertificateRequest) × (status : RequestStatus) × (build.get_request web_name ≡ ok cr)
    × Justified demo swedish_cluster built (swedish ∷ []) build cr status
    × Source build.client
        (generate_request_patch build.client)
        web_name
        web_object
        web_patch
        patch_options
        status
reconcile_request-Justified_example =
    reconcile_request-Justified demo swedish_cluster built (swedish ∷ []) build web_name
      sent_approval web_object web_patch patch_options loads refl (λ cr. refl) reconciled is_sent

abbrev unlucky : RequestController
unlucky = controller_of (λ cr. err (Error.reported "no"))

abbrev name_of : Bool → NamespacedName
name_of b = web_name

undecided-eq-map_example :
    undecided (λ b. b) (λ b. false) name_of (true ∷ false ∷ [])
    ≡ map name_of (passing (λ b. b) (λ b. false) name_of (true ∷ false ∷ []))
undecided-eq-map_example = undecided-eq-map (λ b. b) (λ b. false) name_of (true ∷ false ∷ [])
