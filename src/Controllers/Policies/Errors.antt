-- ===== src/Controllers/Policies/Errors.antt =====
-- pkg/internal/controllers/certificaterequestpolicies.go: a reconciler that cannot tell whether a policy
-- is ready.
use cert_manager_approver_po.Common.{◌≡◌, refl, String, some, List, [], ◌∷◌, ok, err, Error}
use cert_manager_approver_po.Policy.{CertificateRequestPolicy}
use cert_manager_approver_po.Approver.{no_result, ReconcilerReadyResponse, Reconciler}
use cert_manager_approver_po.Library.{Library}
use cert_manager_approver_po.Controllers.Patch.{NamespacedName, send_status, reconcile_with}
use cert_manager_approver_po.Controllers.Policies.{
  Readiness, initial, check_reconcilers, PolicyController, evaluation_failure, decide_ready,
  reconcile_found, reconcile_policy_status, reconcile_policy,
}

-- The first reconciler that does not answer returns the error; those before it have answered.
pub data FirstError (policy : CertificateRequestPolicy) (e : Error) : List Reconciler → Type 0 where
  here :
      {c : Reconciler} {reconcilers : List Reconciler}
      → c.ready policy ≡ err e
      → FirstError policy e (c ∷ reconcilers)
  later :
      {c : Reconciler} {reconcilers : List Reconciler} (r : ReconcilerReadyResponse)
      → c.ready policy ≡ ok r
      → FirstError policy e reconcilers
      → FirstError policy e (c ∷ reconcilers)

check_reconcilers-FirstError :
    (failure : String) (policy : CertificateRequestPolicy) (e : Error)
    {reconcilers : List Reconciler} (r : Readiness)
    → FirstError policy e reconcilers
    → check_reconcilers failure reconcilers policy r ≡ err (Error.wrapped failure e)
unfolding check_reconcilers
check_reconcilers-FirstError failure policy e r (here h) = rw h refl
check_reconcilers-FirstError failure policy e r (later s h f) =
    rw h (check_reconcilers-FirstError failure policy e _ f)

module _ (library : Library) (c : PolicyController) (n : NamespacedName) where
  -- For a policy that is found: an error of a reconciler, after answers of those before it, ends the
  -- reconcile with that error, wrapped, no requeue options, and nothing sent to the API server.
  pub reconcile_policy-FirstError :
      (policy : CertificateRequestPolicy) (e : Error)
      → c.get_policy n ≡ ok policy
      → FirstError policy e c.reconcilers
      → reconcile_policy library c n
        ≡ ok (record {
          result = no_result;
          error = some (Error.wrapped (evaluation_failure library c n) e);
          effects = [];
        })
  unfolding reconcile_policy reconcile_policy_status reconcile_found decide_ready reconcile_with
      send_status
  reconcile_policy-FirstError policy e found first =
      rw
        (
          found,
          check_reconcilers-FirstError (evaluation_failure library c n) policy e initial first,
        )
        refl
