-- ===== src/Controllers/Loop.antt =====
-- pkg/internal/controllers/certificaterequests.go with what drives it: the events that its builder
-- watches, the queue of controller-runtime and the API server. Each is a party of its own, so a run is
-- a sequence of steps of a relation. Reviews read the world as it is when they run; caches are as fresh
-- as the events that have been told.
pub mod Store
pub mod Waiting
pub mod Events
pub mod Begin
pub mod Patched
pub mod Finish
pub mod Idle
pub mod Snapshot
use cert_manager_approver_po.Common.{
  ℕ, suc, String, Bool, true, false, ◌&&◌, ◌||◌, Option, none, some, List, [], ◌∷◌, ◌++◌, ◌≡◌, ◌≢◌,
  ◌⊎◌, Outcome, ok, err, panic, Error, if◌then◌else◌, str_eq,
}
use cert_manager_approver_po.Request.{CertificateRequest}
use cert_manager_approver_po.Approver.{Evaluator}
use cert_manager_approver_po.Library.{Library}
use cert_manager_approver_po.Cluster.{Cluster}
use cert_manager_approver_po.Manager.Review.{new, review}
use cert_manager_approver_po.Controllers.Patch.{
  NamespacedName, PatchObject, ApplyPatch, patch_options, Reconciled, StatusPatch, Client,
  reconcile_with,
}
use cert_manager_approver_po.Controllers.Requests.{
  RequestCondition, RequestStatus, RequestController, request_name, generate_request_patch,
  condition_approved, condition_denied, decision_status, reconcile_request_status, needs_review,
  Enqueued, enqueued, exited, enqueue_requests,
}
use cert_manager_approver_po.Controllers.Parties.{
  Stored, name_of, same_name, lookup, without, put, Conditions, Queue, IsQueue, IsAggregate, Work,
  has_landed, comes_back, has_panicked,
}

-- What the controller is run with, and in. `World` is what reviews read but the requests: policies,
-- access rules and namespaces, all of which the builder watches. A cluster is one that `Sees` it where
-- its answers are right for that world, or errors.
pub record Setting : Type 1 where
  pub library : Library
  pub evaluators : List Evaluator
  pub World : Type 0
  pub Sees : World → Cluster → Type 0
  pub conditions : Conditions
  pub queue : Queue

module _ (setting : Setting) where
  open setting use {library, evaluators, World, Sees, conditions, queue}

  pub record Loop : Type 0 where
    pub world : World
    pub stored : List Stored
    -- events of requests and the number of events of the other kinds, which have not been handled
    pub arrivals : List Stored
    pub changes : ℕ
    pub waiting : queue.State
    pub work : Option Work
    pub stopped : Bool

  abbrev pub is_undecided : Stored → Bool
  is_undecided r =
      needs_review (λ (x : Stored). conditions.is_approved x.conditions)
        (λ (x : Stored). conditions.is_denied x.conditions) name_of r

  -- A fresh process, which is told of every request there is.
  abbrev pub started : World → List Stored → Loop
  started world stored = record {
    world = world;
    stored = stored;
    arrivals = stored;
    changes = 0;
    waiting = queue.empty;
    work = none;
    stopped = false;
  }

  -- A request is created or updated, by anyone.
  abbrev pub write : Stored → Loop → Loop
  write r s = record s { stored = put r s.stored; arrivals = s.arrivals ++ r ∷ [] }

  unfoldable pub add_all : List NamespacedName → queue.State → queue.State
  add_all [] waiting = waiting
  add_all (n ∷ names) waiting = add_all names (queue.add n waiting)

  -- The event filter, and the queue behind it.
  unfoldable pub arrive : Stored → queue.State → queue.State
  arrive r waiting = if is_undecided r then queue.add (name_of r) waiting else waiting

  unfoldable pub after_listing : Outcome Enqueued → Loop → Loop
  after_listing (ok (enqueued names)) s = record s { waiting = add_all names s.waiting }
  after_listing (ok exited) s = record s { stopped = true }
  after_listing (err e) s = record s { stopped = true }
  after_listing panic s = record s { stopped = true }

  -- The handler of an event of a policy, a role, a binding or a namespace.
  unfoldable pub handle_change : Outcome (List Stored) → Loop → Loop
  handle_change listed s =
      after_listing
        (enqueue_requests (λ (x : Stored). conditions.is_approved x.conditions)
          (λ (x : Stored). conditions.is_denied x.conditions) name_of listed)
        s

  abbrev pub not_found : Error
  not_found = Error.reported "not found"

  unfoldable pub get_stored : Option Stored → Outcome CertificateRequest
  get_stored none = err not_found
  get_stored (some r) = ok r.request

  -- The controller that the builder completes, with the answers of one reconcile.
  unfoldable pub controller : Cluster → Client RequestStatus → List Stored → RequestController
  controller cluster client stored = record {
    get_request = λ n. get_stored (lookup n stored);
    review = review library cluster (new cluster evaluators);
    client = client;
    set_request_condition = conditions.set_request_condition;
  }

  unfoldable pub begin : NamespacedName → Cluster → Client RequestStatus → Loop → Loop
  begin n cluster client s = record s {
    waiting = queue.take n s.waiting;
    work = some (record {
      name = n;
      client = client;
      computed = reconcile_request_status (controller cluster client s.stored) n;
    });
  }

  -- What the API server makes of a status that it has accepted.
  unfoldable pub apply_to : Option Stored → RequestStatus → Loop → Loop
  apply_to none status s = s
  apply_to (some r) status s =
      write (record r { conditions = conditions.merge status.conditions r.conditions }) s

  unfoldable pub after_patch :
      Client RequestStatus
      → Bool
      → NamespacedName
      → RequestStatus
      → Outcome (PatchObject × ApplyPatch)
      → Loop
      → Loop
  after_patch client landed n status (ok (object, patch)) s =
      if has_landed (client.patch object patch patch_options) landed
      then apply_to (lookup n s.stored) status s
      else s
  after_patch client landed n status (err e) s = s
  after_patch client landed n status panic s = s

  unfoldable pub after_status :
      Client RequestStatus → Bool → NamespacedName → Option RequestStatus → Loop → Loop
  after_status client landed n none s = s
  after_status client landed n (some status) s =
      after_patch client landed n status (generate_request_patch client n status) s

  unfoldable pub patched :
      Client RequestStatus
      → Bool
      → NamespacedName
      → Outcome (StatusPatch RequestStatus)
      → Loop
      → Loop
  patched client landed n (ok r) s = after_status client landed n r.patch s
  patched client landed n (err e) s = s
  patched client landed n panic s = s

  -- A reconcile that panics ends the process; one that comes back waits again.
  unfoldable pub requeue : NamespacedName → Outcome Reconciled → Loop → Loop
  requeue n m s = record s {
    waiting = if comes_back m then queue.add n s.waiting else s.waiting;
    stopped = has_panicked m || s.stopped;
  }

  -- The rest of the reconcile.
  unfoldable pub finish_work : Work → Bool → Loop → Loop
  finish_work w landed s =
      requeue w.name (reconcile_with w.client (generate_request_patch w.client) w.name w.computed)
        (patched w.client landed w.name w.computed (record s { work = none }))

  pub data Step (s : Loop) : Loop → Type 0 where
    -- Other parties.
    written : (r : Stored) → Step s (write r s)
    deleted : (n : NamespacedName) → Step s (record s { stored = without n s.stored })
    changed : (world : World) → Step s (record s { world = world; changes = suc s.changes })
    crashed : Step s (record s { stopped = true })
    restarted : s.stopped ≡ true → Step s (started s.world s.stored)
    -- Events.
    arrived :
        (r : Stored) (rest : List Stored)
        → s.stopped ≡ false
        → s.arrivals ≡ r ∷ rest
        → Step s (record s { arrivals = rest; waiting = arrive r s.waiting })
    told :
        (k : ℕ) (listed : Outcome (List Stored))
        → s.stopped ≡ false
        → s.changes ≡ suc k
        → (listed ≡ ok s.stored) ⊎ ((e : Error) × (listed ≡ err e))
        → Step s (handle_change listed (record s { changes = k }))
    -- Reconciles.
    begun :
        (n : NamespacedName) (cluster : Cluster) (client : Client RequestStatus)
        → s.stopped ≡ false
        → s.work ≡ none
        → queue.Waits n s.waiting
        → Sees s.world cluster
        → IsAggregate client
        → Step s (begin n cluster client s)
    finished :
        (w : Work) (landed : Bool)
        → s.stopped ≡ false
        → s.work ≡ some w
        → Step s (finish_work w landed s)

  pub data Reach : Loop → Type 0 where
    start : (world : World) (stored : List Stored) → Reach (started world stored)
    next : {s v : Loop} → Reach s → Step s v → Reach v
