-- ===== src/Controllers/Loop/Begin.antt =====
-- pkg/internal/controllers/certificaterequests.go: a reconcile that has read and reviewed.
use mathlib.Core.Path.{subst}
use cert_manager_approver_po.Common.{
  String, none, some, List, ◌≡◌, refl, sym, ◌⊎◌, inl, inr, Outcome, ok, err, panic,
}
use cert_manager_approver_po.Request.{CertificateRequest}
use cert_manager_approver_po.Cluster.{Cluster}
use cert_manager_approver_po.Manager.Review.{
  ReviewResult, approved, denied, unprocessed, other_result, ReviewResponse, new, review,
}
use cert_manager_approver_po.Controllers.Patch.{NamespacedName, Client}
use cert_manager_approver_po.Controllers.Requests.{
  RequestStatus, RequestController, decide, decide_review, reconcile_found,
  reconcile_request_status,
}
use cert_manager_approver_po.Controllers.Parties.{Stored, lookup, IsQueue, IsAggregate, Work}
use cert_manager_approver_po.Controllers.Loop.{Setting, get_stored, controller, begin}
use cert_manager_approver_po.Controllers.Loop.Waiting.{
  State, Acts, to_arrive, to_be_told, queued, in_work, settled, Inv,
}

module _ (setting : Setting) where
  open setting use {library, evaluators, Sees, queue}

  decide-Acts :
      (c : RequestController) (cr : CertificateRequest) (result : ReviewResult) (message : String)
      → Acts setting (ok (decide c cr result message)) ⊎ (result ≡ unprocessed)
  unfolding decide
  decide-Acts c cr approved message = inl (inr (inr (_, refl)))
  decide-Acts c cr denied message = inl (inr (inr (_, refl)))
  decide-Acts c cr unprocessed message = inr refl
  decide-Acts c cr (other_result code) message = inl (inr (inl (refl, refl)))

  decide_review-Acts :
      (c : RequestController) (cr : CertificateRequest) (m : Outcome ReviewResponse)
      → Acts setting (decide_review c cr m)
        ⊎ ((response : ReviewResponse) × (m ≡ ok response) × (response.result ≡ unprocessed))
  unfolding decide_review
  decide_review-Acts c cr (ok response) = elim (decide-Acts c cr response.result response.message) [
    | inl acts ↦ inl acts
    | inr e ↦ inr (response, refl, e)
  ]
  decide_review-Acts c cr (err e) = inl (inl (λ h. cc))
  decide_review-Acts c cr panic = inl tt

  -- A reconcile of a stored request acts, or has found that no policy applies.
  computed-Acts :
      (n : NamespacedName) (cluster : Cluster) (client : Client RequestStatus)
      (stored : List Stored) (r : Stored)
      → lookup n stored ≡ some r
      → Acts setting (reconcile_request_status (controller setting cluster client stored) n)
        ⊎ ((response : ReviewResponse) × (review library cluster (new cluster evaluators) r.request
              ≡ ok response)
            × (response.result ≡ unprocessed))
  unfolding reconcile_request_status reconcile_found controller get_stored
  computed-Acts n cluster client stored r found =
      rw found
        (decide_review-Acts _ r.request (review library cluster (new cluster evaluators) r.request))

  pub begin-Inv :
      (lawful : IsQueue queue) (n : NamespacedName) (cluster : Cluster)
      (client : Client RequestStatus) (s : State setting)
      → s.work ≡ none
      → Sees s.world cluster
      → IsAggregate client
      → Inv setting s
      → Inv setting (begin setting n cluster client s)
  unfolding begin
  begin-Inv lawful k cluster client s idle sees aggregate inv = record {
    waits = λ running n r found is_open. elim (inv.waits running n r found is_open) [
      | to_arrive a m e o ↦ to_arrive a m e o
      | to_be_told c h ↦ to_be_told c h
      | queued q ↦ elim (lawful.others n k s.waiting q) [
        | inl same ↦ elim (computed-Acts n cluster client s.stored r found) [
          | inl acts ↦ in_work _ refl (sym same) (
              subst
                (λ x.
                  Acts setting
                    (reconcile_request_status (controller setting cluster client s.stored) x))
                same acts)
          | inr (response, reviewed, e) ↦ settled (cluster, sees, (response, reviewed, e))
        ]
        | inr later ↦ queued later
      ]
      | in_work w h e acts ↦ cc
      | settled h ↦ settled h
    ];
    aggregates = λ w h.
        let e : record {
          name = k;
          client = client;
          computed = reconcile_request_status (controller setting cluster client s.stored) k;
        }
            ≡ w =
          cc in
        subst (λ (x : Work). IsAggregate x.client) e aggregate;
  }
