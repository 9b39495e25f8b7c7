-- ===== src/Controllers/Parties.antt =====
-- What stands around the controller of pkg/internal/controllers/certificaterequests.go: the requests that
-- the API server stores, the queue of controller-runtime, and what becomes of an answer.
use cert_manager_approver_po.Common.{
  String, Bool, true, false, ◌&&◌, Option, none, some, List, [], ◌∷◌, ◌≡◌, ◌≢◌, ◌⊎◌, Outcome, ok,
  err, panic, Error, if◌then◌else◌, str_eq,
}
use cert_manager_approver_po.Request.{CertificateRequest}
use cert_manager_approver_po.Controllers.Patch.{NamespacedName, Reconciled, StatusPatch, Client}
use cert_manager_approver_po.Controllers.Requests.{RequestCondition, RequestStatus, request_name}

-- A request with the conditions of its status.
pub record Stored : Type 0 where
  pub request : CertificateRequest
  pub conditions : List RequestCondition

abbrev pub name_of : Stored → NamespacedName
name_of r = request_name r.request

abbrev pub same_name : NamespacedName → NamespacedName → Bool
same_name m n = str_eq m.namespace n.namespace && str_eq m.name n.name

-- The requests by their names.
unfoldable pub lookup : NamespacedName → List Stored → Option Stored
lookup n [] = none
lookup n (r ∷ stored) =
    let rest = lookup n stored in if same_name (name_of r) n then some r else rest

unfoldable pub without : NamespacedName → List Stored → List Stored
without n [] = []
without n (r ∷ stored) =
    let rest = without n stored in if same_name (name_of r) n then rest else r ∷ rest

abbrev pub put : Stored → List Stored → List Stored
put r stored = r ∷ without (name_of r) stored

-- cert-manager's `apiutil` on conditions, and what the API server makes of conditions that are applied.
pub record Conditions : Type 0 where
  pub set_request_condition :
      List RequestCondition → String → String → String → String → List RequestCondition
  pub is_approved : List RequestCondition → Bool
  pub is_denied : List RequestCondition → Bool
  pub merge : List RequestCondition → List RequestCondition → List RequestCondition

-- The queue of controller-runtime: names that wait for a reconcile.
pub record Queue : Type 1 where
  pub State : Type 0
  pub empty : State
  pub add : NamespacedName → State → State
  pub take : NamespacedName → State → State
  pub Waits : NamespacedName → State → Type 0

-- What is added waits, and goes on waiting until it is taken.
pub record IsQueue (q : Queue) : Type 0 where
  pub added : (n : NamespacedName) (s : q.State) → q.Waits n (q.add n s)
  pub kept : (m n : NamespacedName) (s : q.State) → q.Waits m s → q.Waits m (q.add n s)
  pub others : (m n : NamespacedName) (s : q.State) → q.Waits m s → (m ≡ n) ⊎ q.Waits m (q.take n s)

-- An aggregate with an error in it is an error.
abbrev pub IsAggregate : Client RequestStatus → Type 0
IsAggregate client = (first : Option Error) (e : Error) → client.aggregate first (some e) ≢ none

-- A reconcile that has read and reviewed, and has yet to send its patch.
pub record Work : Type 0 where
  pub name : NamespacedName
  pub client : Client RequestStatus
  pub computed : Outcome (StatusPatch RequestStatus)

-- Whether a patch has been applied: it has if the answer says so, and may have if it fails.
unfoldable pub has_landed : Outcome (Unit {0}) → Bool → Bool
has_landed (ok _) landed = true
has_landed (err e) landed = landed
has_landed panic landed = landed

-- What controller-runtime makes of the answer of a reconcile: an error or `Requeue` sends the name back
-- to the queue.
unfoldable pub comes_back : Outcome Reconciled → Bool
comes_back (ok done) = elim done.error [ some e ↦ true | none ↦ done.result.requeue ]
comes_back (err e) = true
comes_back panic = false

unfoldable pub has_panicked : Outcome Reconciled → Bool
has_panicked (ok done) = false
has_panicked (err e) = false
has_panicked panic = true
