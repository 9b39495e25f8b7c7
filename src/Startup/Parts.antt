-- ===== src/Startup/Parts.antt =====
-- pkg/internal/cmd/cmd.go: the parts of a start-up that has reached the start of the manager.
use cert_manager_approver_po.Common.{
  String, Option, some, List, [], ◌∷◌, All, ◌≡◌, refl, ap, ◌∙◌, ◌↔◌, ◌≢◌, Outcome, ok, err, panic,
  wrap, ◌>>=◌, ◌+++◌, >>=-eq-ok,
}
use cert_manager_approver_po.Library.{Library}
use cert_manager_approver_po.Cluster.{Cluster}
use cert_manager_approver_po.Approver.{Approver}
use cert_manager_approver_po.Registry.{Registry, evaluators, webhooks, reconcilers}
use cert_manager_approver_po.Manager.Review.{new}
use cert_manager_approver_po.Webhook.{AdmissionLibrary, new_validator}
use cert_manager_approver_po.Predicate.Decides.{wrap-eq-ok_iff}
use cert_manager_approver_po.Controllers.Watch.{Watcher}
use cert_manager_approver_po.Tls.{Provider, created}
use cert_manager_approver_po.Startup.{
  Options, manager_options, Setup, empty_setup, Platform, ignored, register, prepare_all,
  add_request_controller, add_watcher_for, add_policy_controller, add_controllers, assemble_with,
  bootstrap,
}
use cert_manager_approver_po.Startup.Watches.{Watches, Watches-watcher}

-- A wrapped call, and what follows it.
wrapped-eq-ok {κ ℓ} :
    {B : Type κ} {A : Type ℓ} (text : String) (first : Outcome B) (next : B → Outcome A)
    {result : A}
    → (wrap text first >>= next) ≡ ok result
    → (value : B) × (first ≡ ok value) × (next value ≡ ok result)
wrapped-eq-ok text first next returned =
    let (value, at, rest) = >>=-eq-ok (wrap text first) next returned in
    (value, (wrap-eq-ok_iff text first value).0 at, rest)

pub ignored_iff : (m : Outcome (Unit {0})) → (ignored m ≡ ok tt) ↔ (m ≢ panic)
unfolding ignored
ignored_iff (ok _) = (λ h e. cc, λ h. refl)
ignored_iff (err e) = (λ h e'. cc, λ h. refl)
ignored_iff panic = (λ h. cc, λ h. absurd (h refl))

module _ (library : Library) (admission : AdmissionLibrary) (p : Platform library admission)
    (cluster : Cluster) (registry : Registry) (opts : Options) where
  -- Every call before the start of the manager has succeeded, and these are its parts.
  pub record IsAssembled (s : Setup library admission) : Type 1 where
    pub provider : Provider
    pub watcher : Option Watcher
    pub manager_made : p.new_manager (manager_options opts) ≡ ok tt
    pub bootstraps : bootstrap library admission p cluster registry opts ≡ created provider
    pub tls_added : p.add_tls provider ≡ ok tt
    pub checked : p.add_readyz_check ≢ panic
    pub all_prepared : All (λ (a : Approver). a.prepare ≡ ok tt) registry.approvers
    pub requests_completed : p.complete_requests (new cluster (evaluators registry)) ≡ ok tt
    pub policies_completed : p.complete_policies (reconcilers registry) ≡ ok tt
    pub watches : Watches library admission p cluster registry opts (reconcilers registry) watcher
    pub parts : s ≡ record {
      tls = some provider;
      validator = some (new_validator admission registry (webhooks registry));
      request_manager = some (new cluster (evaluators registry));
      policy_reconcilers = some (reconcilers registry);
      watcher = watcher;
    }

  pub prepare_all-All_iff :
      (approvers : List Approver)
      → (prepare_all library admission p cluster registry opts approvers ≡ ok tt)
        ↔ All (λ (a : Approver). a.prepare ≡ ok tt) approvers
  unfolding prepare_all
  prepare_all-All_iff [] = (λ h. tt, λ h. refl)
  prepare_all-All_iff (a ∷ approvers) =
      let (to, from) = prepare_all-All_iff approvers in
      (
        λ h.
            let (value, at, rest) =
              wrapped-eq-ok ("failed to prepare approver " +++ library.quote a.name) a.prepare _
                h in
            (at, to rest),
        λ (at, rest). rw at (from rest),
      )

  register_parts :
      (t : Provider) (r : Setup library admission)
      → register library admission p cluster registry opts (ok t) (empty_setup library admission)
        ≡ ok r
      → (p.add_tls t ≡ ok tt)
        × (p.add_readyz_check ≢ panic)
        × (r ≡ record (empty_setup library admission) {
          tls = some t;
          validator = some (new_validator admission registry (webhooks registry));
        })
  unfolding register
  register_parts t r h =
      let (_, added, rest) =
        wrapped-eq-ok "failed to add webhook tls manager as a runnable" (p.add_tls t) _ h in
      let (_, answered, made) = >>=-eq-ok (ignored p.add_readyz_check) _ rest in
      (added, (ignored_iff p.add_readyz_check).0 answered, cc)

  add_controllers_parts :
      (s r : Setup library admission)
      → add_controllers library admission p cluster registry opts s ≡ ok r
      → (p.complete_requests (new cluster (evaluators registry)) ≡ ok tt)
        × (p.complete_policies (reconcilers registry) ≡ ok tt)
        × ((w : Option Watcher) × Watches library admission p cluster registry opts
              (reconcilers registry)
              w
            × (r ≡ record s {
              request_manager = some (new cluster (evaluators registry));
              policy_reconcilers = some (reconcilers registry);
              watcher = w;
            }))
  unfolding add_controllers add_request_controller add_policy_controller
  add_controllers_parts s r h =
      let (middle, requests, policies) =
        wrapped-eq-ok "failed to add certificaterequest controller" _ _ h in
      let (_, completed, made) =
        >>=-eq-ok (p.complete_requests (new cluster (evaluators registry))) _ requests in
      let (w, watching, rest) =
        >>=-eq-ok (add_watcher_for library admission p cluster registry opts (reconcilers registry))
          _ ((wrap-eq-ok_iff "failed to add certificaterequestpolicy controller" _ r).0 policies) in
      let (_, policies_completed, last) =
        >>=-eq-ok (p.complete_policies (reconcilers registry)) _ rest in
      let same : r
          ≡ record middle { policy_reconcilers = some (reconcilers registry); watcher = w } =
        cc in
      let before : middle
          ≡ record s { request_manager = some (new cluster (evaluators registry)) } =
        cc in
      (
        completed,
        policies_completed,
        (
          w,
          Watches-watcher library admission p cluster registry opts (reconcilers registry) w
              watching,
          same
              ∙ ap
                  (λ (x : Setup library admission). record x {
                    policy_reconcilers = some (reconcilers registry);
                    watcher = w;
                  })
                  before,
        ),
      )

  pub assemble_with-IsAssembled :
      (t : Provider) (s : Setup library admission)
      → p.new_manager (manager_options opts) ≡ ok tt
      → bootstrap library admission p cluster registry opts ≡ created t
      → assemble_with library admission p cluster registry opts (ok t) ≡ ok s
      → IsAssembled s
  unfolding assemble_with
  assemble_with-IsAssembled t s made created_t h =
      let (registered, at, rest) = wrapped-eq-ok "failed to register webhook" _ _ h in
      let (tls_added, answered, first) = register_parts t registered at in
      let (_, prepared, last) =
        >>=-eq-ok (prepare_all library admission p cluster registry opts registry.approvers) _
          rest in
      let (requests, policies, (w, watching, second)) =
        add_controllers_parts registered s
          ((wrap-eq-ok_iff "failed to add controllers" _ s).0 last) in
      record {
        provider = t;
        watcher = w;
        manager_made = made;
        bootstraps = created_t;
        tls_added = tls_added;
        checked = answered;
        all_prepared = (prepare_all-All_iff registry.approvers).0 prepared;
        requests_completed = requests;
        policies_completed = policies;
        watches = watching;
        parts =
            second
            ∙ ap
                (λ (x : Setup library admission). record x {
                  request_manager = some (new cluster (evaluators registry));
                  policy_reconcilers = some (reconcilers registry);
                  watcher = w;
                })
                first;
      }
