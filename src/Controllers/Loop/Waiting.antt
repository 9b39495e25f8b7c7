-- ===== src/Controllers/Loop/Waiting.antt =====
-- pkg/internal/controllers/certificaterequests.go: why an undecided request is not forgotten.
use mathlib.Core.Path.{subst}
use cert_manager_approver_po.Common.{
  ℕ, suc, true, false, none, some, List, [], ◌∷◌, ◌≡◌, ◌≢◌, refl, sym, ◌∙◌, ap, ◌⊎◌, inl, inr,
  Outcome, ok, err, panic,
}
use cert_manager_approver_po.Cluster.{Cluster}
use cert_manager_approver_po.Manager.Review.{unprocessed, ReviewResponse, new, review}
use cert_manager_approver_po.Predicate.Filter.{In, In-append}
use cert_manager_approver_po.Controllers.Patch.{NamespacedName, StatusPatch}
use cert_manager_approver_po.Controllers.Requests.{RequestStatus}
use cert_manager_approver_po.Controllers.Parties.{
  Stored, name_of, lookup, without, put, IsAggregate, Work,
}
use cert_manager_approver_po.Controllers.Loop.{Setting, Loop, is_undecided, started, write}
use cert_manager_approver_po.Controllers.Loop.Store.{
  lookup-put, lookup-without, lookup-name, lookup-In,
}

module _ (setting : Setting) where
  open setting use {library, evaluators, World, Sees, queue}

  abbrev pub State : Type 0
  State = Loop setting

  abbrev pub IsOpen : Stored → Type 0
  IsOpen r = is_undecided setting r ≡ true

  -- The request's review has come out unprocessed in this world.
  abbrev pub IsSettled : World → Stored → Type 0
  IsSettled world r =
      (cluster : Cluster) × Sees world cluster
      × ((response : ReviewResponse) × (review library cluster (new cluster evaluators) r.request
            ≡ ok response)
          × (response.result ≡ unprocessed))

  -- What has been computed has a patch to send, comes back to the request, or is a panic, which ends
  -- the process.
  abbrev pub Acts : Outcome (StatusPatch RequestStatus) → Type 0
  Acts (ok r) =
      (r.error ≢ none)
      ⊎ ((r.result.requeue ≡ true) × (r.patch ≡ none))
      ⊎ ((status : RequestStatus) × (r.patch ≡ some status))
  Acts (err e) = Unit
  Acts panic = Unit

  -- Why an undecided request of this name is not forgotten.
  pub data IsWaiting (s : State) (n : NamespacedName) (r : Stored) : Type 0 where
    to_arrive : (a : Stored) → In a s.arrivals → name_of a ≡ n → IsOpen a → IsWaiting s n r
    to_be_told : (k : ℕ) → s.changes ≡ suc k → IsWaiting s n r
    queued : queue.Waits n s.waiting → IsWaiting s n r
    in_work : (w : Work) → s.work ≡ some w → w.name ≡ n → Acts w.computed → IsWaiting s n r
    settled : IsSettled s.world r → IsWaiting s n r

  -- No undecided request is forgotten while the process runs, and reconciles make errors of failures.
  pub record Inv (s : State) : Type 0 where
    pub waits :
        s.stopped ≡ false
        → (n : NamespacedName) (r : Stored) → lookup n s.stored ≡ some r
        → IsOpen r
        → IsWaiting s n r
    pub aggregates : (w : Work) → s.work ≡ some w → IsAggregate w.client

  -- The same reasons after a step that takes none of them away.
  pub IsWaiting-keeps :
      (s v : State) (n : NamespacedName) (r : Stored)
      → ((a : Stored) → In a s.arrivals → In a v.arrivals)
      → s.changes ≡ v.changes
      → (queue.Waits n s.waiting → queue.Waits n v.waiting)
      → s.work ≡ v.work
      → s.world ≡ v.world
      → IsWaiting s n r
      → IsWaiting v n r
  IsWaiting-keeps s v n r arrivals changes waits work world (to_arrive a m e o) =
      to_arrive a (arrivals a m) e o
  IsWaiting-keeps s v n r arrivals changes waits work world (to_be_told k h) =
      to_be_told k (sym changes ∙ h)
  IsWaiting-keeps s v n r arrivals changes waits work world (queued h) = queued (waits h)
  IsWaiting-keeps s v n r arrivals changes waits work world (in_work w h e acts) =
      in_work w (sym work ∙ h) e acts
  IsWaiting-keeps s v n r arrivals changes waits work world (settled h) =
      settled (subst (λ x. IsSettled x r) world h)

  -- A request that is written waits for its event.
  pub write-Inv : (r : Stored) (s : State) → Inv s → Inv (write setting r s)
  write-Inv x s inv = record {
    waits = λ running n r found is_open. elim (lookup-put n x s.stored r found) [
      | inl e ↦
          to_arrive x ((In-append x s.arrivals (x ∷ [])).1 (inr (inl refl)))
            (ap name_of (sym e) ∙ lookup-name n (put x s.stored) r found) (subst IsOpen e is_open)
      | inr (_, before) ↦
          IsWaiting-keeps s _ n r (λ a m. (In-append a s.arrivals (x ∷ [])).1 (inl m)) refl (λ h. h)
            refl refl (inv.waits running n r before is_open)
    ];
    aggregates = inv.aggregates;
  }

  pub delete-Inv :
      (n : NamespacedName) (s : State) → Inv s → Inv (record s { stored = without n s.stored })
  delete-Inv k s inv = record {
    waits = λ running n r found is_open.
        IsWaiting-keeps s _ n r (λ a m. m) refl (λ h. h) refl refl
          (inv.waits running n r (lookup-without n k s.stored r found) is_open);
    aggregates = inv.aggregates;
  }

  pub change-Inv :
      (world : World) (s : State)
      → Inv s
      → Inv (record s { world = world; changes = suc s.changes })
  change-Inv world s inv = record {
    waits = λ running n r found is_open. to_be_told s.changes refl;
    aggregates = inv.aggregates;
  }

  pub stop-Inv : (s : State) → Inv s → Inv (record s { stopped = true })
  stop-Inv s inv = record { waits = λ running. cc; aggregates = inv.aggregates }

  -- A process that starts is told of every request.
  pub start-Inv : (world : World) (stored : List Stored) → Inv (started setting world stored)
  start-Inv world stored = record {
    waits = λ running n r found is_open.
        to_arrive r (lookup-In n stored r found) (lookup-name n stored r found) is_open;
    aggregates = λ w h. cc;
  }
