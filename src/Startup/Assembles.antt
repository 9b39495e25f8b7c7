-- ===== src/Startup/Assembles.antt =====
-- pkg/internal/cmd/cmd.go: what the manager of controller-runtime is given before it is started.
use mathlib.Core.Option
use mathlib.Core.Path.{subst}
use cert_manager_approver_po.Common.{
  ℤ, true, Option, none, some, ◌≡◌, ◌≢◌, refl, sym, ap, ◌↔◌, Outcome, ok, err, panic, wrap,
}
use cert_manager_approver_po.Library.{Library}
use cert_manager_approver_po.Cluster.{Cluster}
use cert_manager_approver_po.Registry.{Registry, reconcilers}
use cert_manager_approver_po.Webhook.{AdmissionLibrary}
use cert_manager_approver_po.Tls.{Bootstrap, created, given_up, polling, hung, aborted}
use cert_manager_approver_po.Tls.Update.{Begins, poll_new-Begins}
use cert_manager_approver_po.Startup.Watches.{watcher-Watches}
use cert_manager_approver_po.Startup.Parts.{
  IsAssembled, ignored_iff, prepare_all-All_iff, assemble_with-IsAssembled,
}
use cert_manager_approver_po.Startup.{
  Options, manager_options, Setup, Platform, bootstrapped, register, add_request_controller,
  add_policy_controller, add_controllers, assemble_with, bootstrap, assemble_after, assemble,
}

module _ (library : Library) (admission : AdmissionLibrary) (p : Platform library admission)
    (cluster : Cluster) (registry : Registry) (opts : Options) where
  IsAssembled-assemble_with :
      (s : Setup library admission) (a : IsAssembled library admission p cluster registry opts s)
      → assemble_with library admission p cluster registry opts (ok a.provider) ≡ ok s
  unfolding assemble_with register add_controllers add_request_controller add_policy_controller
  IsAssembled-assemble_with s a =
      rw
        (
          a.tls_added,
          (ignored_iff p.add_readyz_check).1 a.checked,
          (prepare_all-All_iff library admission p cluster registry opts registry.approvers).1
              a.all_prepared,
          a.requests_completed,
          watcher-Watches library admission p cluster registry opts (reconcilers registry) a.watcher
              a.watches,
          a.policies_completed,
        )
        (ap ok (sym a.parts))

  -- What follows the creation of the manager of controller-runtime.
  after_bootstrap-IsAssembled :
      (b : Bootstrap) (s : Setup library admission)
      → p.new_manager (manager_options opts) ≡ ok tt
      → bootstrap library admission p cluster registry opts ≡ b
      → Option.map
          (assemble_with library admission p cluster registry opts)
          (bootstrapped library admission b)
        ≡ some (ok s)
      → IsAssembled library admission p cluster registry opts s
  unfolding bootstrapped assemble_with register
  after_bootstrap-IsAssembled (created t) s made at h =
      assemble_with-IsAssembled library admission p cluster registry opts t s made at cc
  after_bootstrap-IsAssembled (given_up e) s made at h = cc
  after_bootstrap-IsAssembled polling s made at h = cc
  after_bootstrap-IsAssembled hung s made at h = cc
  after_bootstrap-IsAssembled aborted s made at h = cc

  assemble_after-IsAssembled :
      (m : Outcome (Unit {0})) (s : Setup library admission)
      → p.new_manager (manager_options opts) ≡ m
      → assemble_after library admission p cluster registry opts
          (wrap "unable to create controller manager" m)
        ≡ some (ok s)
      → IsAssembled library admission p cluster registry opts s
  unfolding assemble_after
  assemble_after-IsAssembled (ok _) s made h = after_bootstrap-IsAssembled _ s made refl h
  assemble_after-IsAssembled (err e) s made h = cc
  assemble_after-IsAssembled panic s made h = cc

  pub IsAssembled-assemble :
      (s : Setup library admission)
      → IsAssembled library admission p cluster registry opts s
      → assemble library admission p cluster registry opts ≡ some (ok s)
  unfolding assemble assemble_after bootstrapped
  IsAssembled-assemble s a = rw (a.manager_made, a.bootstraps, IsAssembled-assemble_with s a) refl

  pub assemble-IsAssembled :
      (s : Setup library admission)
      → assemble library admission p cluster registry opts ≡ some (ok s)
      → IsAssembled library admission p cluster registry opts s
  unfolding assemble
  assemble-IsAssembled s h = assemble_after-IsAssembled _ s refl h

  Begins-returns : (b : Bootstrap) → Begins true b → bootstrapped library admission b ≢ none
  unfolding bootstrapped
  Begins-returns (created t) h e = cc
  Begins-returns (given_up x) h e = cc
  Begins-returns polling h e = cc
  Begins-returns hung h e = absurd h
  Begins-returns aborted h e = cc

  bootstrap-Begins :
      p.found.next_renew ≡ none
      → Begins p.cancelled (bootstrap library admission p cluster registry opts)
  unfolding bootstrap
  bootstrap-Begins empty =
      poll_new-Begins p.is_wait_timeout opts.webhook.service_name opts.webhook.ca_secret_namespace
        p.cancelled p.calls p.found empty

  map-returns :
      {A : Type 0} (f : A → Outcome (Setup library admission)) (o : Option A)
      → o ≢ none
      → Option.map f o ≢ none
  map-returns f none h e = h refl
  map-returns f (some a) h e = cc

  assemble_after-returns :
      (m : Outcome (Unit {0}))
      → p.found.next_renew ≡ none
      → p.cancelled ≡ true
      → assemble_after library admission p cluster registry opts m ≢ none
  unfolding assemble_after
  assemble_after-returns (ok _) empty over = map-returns _ _ (
      Begins-returns _ (
        subst (λ c. Begins c (bootstrap library admission p cluster registry opts)) over
          (bootstrap-Begins empty)))
  assemble_after-returns (err e) empty over = λ h. cc
  assemble_after-returns panic empty over = λ h. cc

  -- With an empty buffer to begin with, for a start-up whose calls of other code all return: if the
  -- context is cancelled after the given calls of the polling, it comes to an end. In any case it
  -- reaches the start of the manager exactly if the manager of controller-runtime is made, the polling
  -- gives a certificate, the certificate's provider is added, adding the check of readiness does not
  -- panic, every registered approver is prepared, and both controllers are completed, where adding the
  -- goroutine that forwards names may return an error but not panic. What the manager is then given is a certificate with its renewal moment in the buffer, the validator
  -- over the registry's webhooks, the review over its evaluators, its reconcilers, and the goroutine
  -- that forwards names just if some reconciler has a channel and it could be added.
  pub assemble-IsAssembled_iff :
      (s : Setup library admission)
      → p.found.next_renew ≡ none
      → (p.cancelled ≡ true → assemble library admission p cluster registry opts ≢ none)
        × ((assemble library admission p cluster registry opts ≡ some (ok s)) ↔ (
            (a : IsAssembled library admission p cluster registry opts s) × ((moment : ℤ)
              × (a.provider.next_renew ≡ some moment))))
  unfolding assemble
  assemble-IsAssembled_iff s empty = (
    λ over. assemble_after-returns _ empty over,
    (
      λ h.
          let a = assemble-IsAssembled s h in
          (a, subst (Begins p.cancelled) a.bootstraps (bootstrap-Begins empty)),
      λ (a, _). IsAssembled-assemble s a,
    ),
  )
