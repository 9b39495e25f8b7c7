-- ===== src/Controllers/Loop/Idle.antt =====
-- pkg/internal/controllers/certificaterequests.go: what holds of undecided requests in every run.
use mathlib.Core.Path.{subst}
use cert_manager_approver_po.Common.{false, none, some, List, [], ◌≡◌, ok}
use cert_manager_approver_po.Policy.{CertificateRequestPolicy}
use cert_manager_approver_po.Request.{CertificateRequest}
use cert_manager_approver_po.Cluster.{Cluster}
use cert_manager_approver_po.Manager.Review.{ReviewResponse, unprocessed, new, review}
use cert_manager_approver_po.Manager.Decides.{
  IsCandidate, review-listed_policies, review-unprocessed_iff,
}
use cert_manager_approver_po.Predicate.Filter.{In}
use cert_manager_approver_po.Controllers.Patch.{NamespacedName}
use cert_manager_approver_po.Controllers.Parties.{Stored, lookup, IsQueue}
use cert_manager_approver_po.Controllers.Loop.{
  Setting, Step, written, deleted, changed, crashed, restarted, arrived, told, begun, finished,
  Reach, start, next,
}
use cert_manager_approver_po.Controllers.Loop.Waiting.{
  State, IsOpen, IsWaiting, to_arrive, to_be_told, queued, in_work, settled, Inv, write-Inv,
  delete-Inv, change-Inv, stop-Inv, start-Inv,
}
use cert_manager_approver_po.Controllers.Loop.Events.{arrive-Inv, told-Inv}
use cert_manager_approver_po.Controllers.Loop.Begin.{begin-Inv}
use cert_manager_approver_po.Controllers.Loop.Finish.{finish-Inv}

module _ (setting : Setting) where
  open setting use {library, evaluators, Sees, queue}

  Step-Inv :
      {s v : State setting} → IsQueue queue → Step setting s v → Inv setting s → Inv setting v
  Step-Inv {s} lawful (written r) inv = write-Inv setting r s inv
  Step-Inv {s} lawful (deleted n) inv = delete-Inv setting n s inv
  Step-Inv {s} lawful (changed world) inv = change-Inv setting world s inv
  Step-Inv {s} lawful crashed inv = stop-Inv setting s inv
  Step-Inv {s} lawful (restarted _) inv = start-Inv setting s.world s.stored
  Step-Inv {s} lawful (arrived r rest _ h) inv = arrive-Inv setting lawful r rest s h inv
  Step-Inv {s} lawful (told k listed _ _ answer) inv = told-Inv setting lawful k listed s answer inv
  Step-Inv {s} lawful (begun n cluster client _ idle _ sees aggregate) inv =
      begin-Inv setting lawful n cluster client s idle sees aggregate inv
  Step-Inv {s} lawful (finished w landed _ busy) inv = finish-Inv setting lawful w s busy inv landed

  Reach-Inv : {s : State setting} → IsQueue queue → Reach setting s → Inv setting s
  Reach-Inv lawful (start world stored) = start-Inv setting world stored
  Reach-Inv lawful (next r step) = Step-Inv lawful step (Reach-Inv lawful r)

  -- In every run, at every moment at which the process runs: a stored request that is neither approved
  -- nor denied waits for an event that is still to be handled, waits in the queue, is in a reconcile
  -- that has computed a patch to send, will come back to it, or has panicked, or has been reviewed in
  -- the present world and left unprocessed.
  pub Reach-IsWaiting :
      (s : State setting) (n : NamespacedName) (r : Stored)
      → IsQueue queue
      → Reach setting s
      → s.stopped ≡ false
      → lookup n s.stored ≡ some r
      → IsOpen setting r
      → IsWaiting setting s n r
  Reach-IsWaiting s n r lawful reach running found is_open =
      (Reach-Inv lawful reach).waits running n r found is_open

  -- No policy that the review lists applies to the request.
  abbrev pub IsUnclaimed : Cluster → CertificateRequest → Type 0
  IsUnclaimed cluster cr =
      (policies : List CertificateRequestPolicy) × (cluster.list_policies ≡ ok policies)
      × ((q : CertificateRequestPolicy) → ¬ IsCandidate library cluster evaluators cr policies q)

  unprocessed-IsUnclaimed :
      (cluster : Cluster) (cr : CertificateRequest) (response : ReviewResponse)
      → review library cluster (new cluster evaluators) cr ≡ ok response
      → response.result ≡ unprocessed
      → IsUnclaimed cluster cr
  unprocessed-IsUnclaimed cluster cr response h result =
      let (policies, listed) =
        review-listed_policies library cluster (new cluster evaluators) cr response h in
      (
        policies,
        listed,
        (review-unprocessed_iff library cluster evaluators cr policies response listed h).0 result,
      )

  -- In every run, at every moment at which the process runs and has nothing to do for a name, no event
  -- to handle, nothing in the queue and no reconcile under way: a request of that name that is neither
  -- approved nor denied is one to which, in the present world, no policy applies.
  pub Reach-IsUnclaimed :
      (s : State setting) (n : NamespacedName) (r : Stored)
      → IsQueue queue
      → Reach setting s
      → s.stopped ≡ false
      → s.arrivals ≡ []
      → s.changes ≡ 0
      → ¬ queue.Waits n s.waiting
      → s.work ≡ none
      → lookup n s.stored ≡ some r
      → IsOpen setting r
      → (cluster : Cluster) × Sees s.world cluster × IsUnclaimed cluster r.request
  Reach-IsUnclaimed s n r lawful reach running no_events no_changes empty idle found is_open =
      elim (Reach-IsWaiting s n r lawful reach running found is_open) [
        | to_arrive a m e o ↦ absurd (subst (In a) no_events m)
        | to_be_told k h ↦ cc
        | queued q ↦ absurd (empty q)
        | in_work w h e acts ↦ cc
        | settled (cluster, sees, (response, h, result)) ↦
            (cluster, sees, unprocessed-IsUnclaimed cluster r.request response h result)
      ]
