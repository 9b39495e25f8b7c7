-- ===== src/Controllers/Requests/Decides.antt =====
-- pkg/internal/controllers/certificaterequests.go: what a reconcile sends, and why.
use mathlib.Core.Path.{subst}
use cert_manager_approver_po.Common.{
  ◌≡◌, refl, sym, ◌∙◌, ap, inl, inr, String, some, [], ◌∷◌, Outcome, ok, err, panic,
}
use cert_manager_approver_po.Request.{CertificateRequest}
use cert_manager_approver_po.Manager.Review.{
  ReviewResult, approved, denied, unprocessed, other_result, ReviewResponse,
}
use cert_manager_approver_po.Predicate.Filter.{In}
use cert_manager_approver_po.Controllers.Patch.{
  NamespacedName, PatchObject, ApplyPatch, PatchOptions, Effect, Reconciled, StatusPatch,
}
use cert_manager_approver_po.Controllers.Patch.Sends.{IsQuiet, Source, reconcile_with-Source}
use cert_manager_approver_po.Controllers.Requests.{
  generate_request_patch, RequestStatus, RequestController, set_status_condition, decide,
  decide_review, reconcile_found, reconcile_request_status, reconcile_request,
}

-- An event is no patch.
one_event : (n : NamespacedName) (a b c : String) → IsQuiet (Effect.event n a b c ∷ [])
one_event n a b c o p options h = elim h [ inl e ↦ cc | inr m ↦ m ]

module _ (c : RequestController) where
  decide-IsQuiet :
      (cr : CertificateRequest) (result : ReviewResult) (message : String)
      → IsQuiet (decide c cr result message).effects
  unfolding decide
  decide-IsQuiet cr approved message = one_event _ _ _ _
  decide-IsQuiet cr denied message = one_event _ _ _ _
  decide-IsQuiet cr unprocessed message = one_event _ _ _ _
  decide-IsQuiet cr (other_result code) message = one_event _ _ _ _

  -- The status that a decision is: one condition, of the decision's type and true, with the message.
  abbrev pub sole_condition : String → String → RequestStatus
  sole_condition type message = record {
    conditions = c.set_request_condition [] type "True" "policy.cert-manager.io" message;
  }

  -- The two decisions that are written, each with the result that it stands for.
  pub data Decision (response : ReviewResponse) (status : RequestStatus) : Type 0 where
    approval :
        response.result ≡ approved
        → status ≡ sole_condition "Approved" response.message
        → Decision response status
    denial :
        response.result ≡ denied
        → status ≡ sole_condition "Denied" response.message
        → Decision response status

  decide-Decision :
      (cr : CertificateRequest) (result : ReviewResult) (message : String) (status : RequestStatus)
      → (decide c cr result message).patch ≡ some status
      → Decision (record { result = result; message = message }) status
  unfolding decide set_status_condition
  decide-Decision cr approved message status h = approval refl (cc)
  decide-Decision cr denied message status h = denial refl (cc)
  decide-Decision cr unprocessed message status h = cc
  decide-Decision cr (other_result code) message status h = cc

  -- The request was found and reviewed, and the status is the decision.
  pub record Reviewed (n : NamespacedName) (status : RequestStatus) : Type 0 where
    pub cr : CertificateRequest
    pub response : ReviewResponse
    pub found : c.get_request n ≡ ok cr
    pub reviewed : c.review cr ≡ ok response
    pub decision : Decision response status

  patch_of_ok :
      (a b : StatusPatch RequestStatus)
      → ◌≡◌ {A = Outcome (StatusPatch RequestStatus)} (ok a) (ok b)
      → b ≡ a
  patch_of_ok a b h = cc

  decide_review-Reviewed :
      (n : NamespacedName) (cr : CertificateRequest) (m : Outcome ReviewResponse)
      (r : StatusPatch RequestStatus)
      → c.get_request n ≡ ok cr
      → c.review cr ≡ m
      → decide_review c cr m ≡ ok r
      → IsQuiet r.effects × ((status : RequestStatus) → r.patch ≡ some status → Reviewed n status)
  unfolding decide_review
  decide_review-Reviewed n cr (ok response) r found reviewed h =
      let same = patch_of_ok _ r h in
      (
        subst (λ (x : StatusPatch RequestStatus). IsQuiet x.effects) (sym same)
            (decide-IsQuiet cr response.result response.message),
        λ status patched. record {
          cr = cr;
          response = response;
          found = found;
          reviewed = reviewed;
          decision =
              decide-Decision cr response.result response.message status
                (sym (ap (λ (x : StatusPatch RequestStatus). x.patch) same) ∙ patched);
        },
      )
  decide_review-Reviewed n cr (err e) r found reviewed h =
      let same = patch_of_ok _ r h in
      (
        subst (λ (x : StatusPatch RequestStatus). IsQuiet x.effects) (sym same) (one_event _ _ _ _),
        λ status patched.
            let wrong = sym (ap (λ (x : StatusPatch RequestStatus). x.patch) same) ∙ patched in cc,
      )
  decide_review-Reviewed n cr panic r found reviewed h = cc

  pub reconcile_found-Reviewed :
      (n : NamespacedName) (m : Outcome CertificateRequest) (r : StatusPatch RequestStatus)
      → c.get_request n ≡ m
      → reconcile_found c m ≡ ok r
      → IsQuiet r.effects × ((status : RequestStatus) → r.patch ≡ some status → Reviewed n status)
  unfolding reconcile_found
  reconcile_found-Reviewed n (ok cr) r found h =
      decide_review-Reviewed n cr (c.review cr) r found refl h
  reconcile_found-Reviewed n (err e) r found h =
      let same = patch_of_ok _ r h in
      (
        subst (λ (x : StatusPatch RequestStatus). IsQuiet x.effects) (sym same)
            (λ o p options m. m),
        λ status patched.
            let wrong = sym (ap (λ (x : StatusPatch RequestStatus). x.patch) same) ∙ patched in cc,
      )
  reconcile_found-Reviewed n panic r found h = cc

  pub reconcile_request-Reviewed :
      (n : NamespacedName) (done : Reconciled) (o : PatchObject) (p : ApplyPatch)
      (options : PatchOptions)
      → reconcile_request c n ≡ ok done
      → In (Effect.sent o p options) done.effects
      → (status : RequestStatus) × Reviewed n status
        × Source c.client (generate_request_patch c.client) n o p options status
  unfolding reconcile_request reconcile_request_status
  reconcile_request-Reviewed n done o p options h sent =
      let (r, status, computed, patched, source) =
        reconcile_with-Source c.client (generate_request_patch c.client) n
          (reconcile_found c (c.get_request n)) done o p options h
          (λ r computed. (reconcile_found-Reviewed n (c.get_request n) r refl computed).0) sent in
      (
        status,
        (reconcile_found-Reviewed n (c.get_request n) r refl computed).1 status patched,
        source,
      )
