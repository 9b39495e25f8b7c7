-- ===== src/Tests/Loop.antt =====
-- The requests' controller with its events and its queue, at a small run.
use mathlib.Core.Path.{subst}
use cert_manager_approver_po.Common.{
  ◌≡◌, refl, ◌⊎◌, inl, inr, ◌∙◌, String, str_eq, Bool, true, false, Bool-cases, ◌||◌, none, some,
  List, [], ◌∷◌, ◌++◌, ok, if◌then◌else◌,
}
use cert_manager_approver_po.Cluster.{Cluster}
use cert_manager_approver_po.Manager.Review.{new, review}
use cert_manager_approver_po.Predicate.Filter.{In}
use cert_manager_approver_po.Controllers.Patch.{NamespacedName, Client, send_status, reconcile_with}
use cert_manager_approver_po.Controllers.Requests.{
  RequestCondition, RequestStatus, needs_review, decide, decide_review, reconcile_found,
  reconcile_request_status,
}
use cert_manager_approver_po.Controllers.Parties.{
  Stored, name_of, same_name, lookup, Conditions, Queue, IsQueue, Work, comes_back, has_panicked,
}
use cert_manager_approver_po.Controllers.Loop.{
  Setting, Loop, started, arrive, get_stored, controller, begin, after_status, patched, requeue,
  finish_work, Reach, start, next, arrived, begun, finished,
}
use cert_manager_approver_po.Controllers.Loop.Store.{same_name_iff}
use cert_manager_approver_po.Controllers.Loop.Waiting.{IsOpen, IsWaiting}
use cert_manager_approver_po.Controllers.Loop.Idle.{IsUnclaimed, Reach-IsWaiting, Reach-IsUnclaimed}
use cert_manager_approver_po.Tests.Fixtures.{demo, demo_cluster, web_request}

-- Conditions as a list in which any of the type counts.
abbrev has_type : String → List RequestCondition → Bool
has_type type [] = false
has_type type (c ∷ conditions) = str_eq c.type type || has_type type conditions

abbrev pub listed_conditions : Conditions
listed_conditions = record {
  set_request_condition = λ conditions type status reason message.
      record {
        type = type;
        status = status;
        reason = reason;
        message = message;
        last_transition_time = none;
      }
      ∷ conditions;
  is_approved = has_type "Approved";
  is_denied = has_type "Denied";
  merge = λ new old. new ++ old;
}

-- A queue as a list of names.
unfoldable pub remove : NamespacedName → List NamespacedName → List NamespacedName
remove n [] = []
remove n (m ∷ names) = let rest = remove n names in if same_name m n then rest else m ∷ rest

abbrev list_queue : Queue
list_queue = record {
  State = List NamespacedName;
  empty = [];
  add = λ n names. n ∷ names;
  take = remove;
  Waits = λ n names. In n names;
}

In-remove :
    (m n : NamespacedName) (names : List NamespacedName)
    → In m names
    → (m ≡ n) ⊎ In m (remove n names)
unfolding remove
In-remove m n [] h = absurd h
In-remove m n (x ∷ names) h = elim (Bool-cases (same_name x n)) [
  | inl same ↦ elim h [
    | inl e ↦ inl (e ∙ (same_name_iff x n).0 same)
    | inr later ↦ rw same (In-remove m n names later)
  ]
  | inr other ↦ elim h [
    | inl e ↦ inr (rw other (inl e))
    | inr later ↦ elim (In-remove m n names later) [
      | inl e ↦ inl e
      | inr there ↦ inr (rw other (inr there))
    ]
  ]
]

list_queue-IsQueue : IsQueue list_queue
list_queue-IsQueue = record {
  added = λ n names. inl refl;
  kept = λ m n names h. inr h;
  others = In-remove;
}

-- Nobody has a policy.
abbrev no_policies : Cluster
no_policies = record demo_cluster { list_policies = ok [] }

abbrev pub setting : Setting
setting = record {
  library = demo;
  evaluators = [];
  World = Cluster;
  Sees = λ world cluster. cluster ≡ world;
  conditions = listed_conditions;
  queue = list_queue;
}

abbrev pub api : Client RequestStatus
api = record {
  marshal = λ configuration. ok [];
  patch = λ object patch options. ok tt;
  is_not_found = λ e. true;
  aggregate = λ first second. second;
}

abbrev pub asked : Stored
asked = record { request = web_request; conditions = [] }

abbrev idle : Loop setting
idle = record (started setting no_policies (asked ∷ [])) { arrivals = [] }

abbrev in_queue : Loop setting
in_queue = record idle { waiting = name_of asked ∷ [] }

queues : arrive setting asked [] ≡ name_of asked ∷ []
unfolding arrive needs_review
queues = refl

abbrev reviewing : Work
reviewing = record {
  name = name_of asked;
  client = api;
  computed =
      reconcile_request_status (controller setting no_policies api (asked ∷ [])) (name_of asked);
}

abbrev at_work : Loop setting
at_work = record idle { work = some reviewing }

begins : begin setting (name_of asked) no_policies api in_queue ≡ at_work
unfolding begin remove
begins = refl

finishes : finish_work setting reviewing true at_work ≡ idle
unfolding finish_work requeue patched after_status reconcile_with send_status comes_back
    has_panicked reconcile_request_status reconcile_found controller get_stored lookup decide_review
    decide review new
finishes = refl

run : Reach setting idle
run =
    let told = next (start no_policies (asked ∷ [])) (arrived asked [] refl refl) in
    let waiting = subst (λ q. Reach setting (record idle { waiting = q })) queues told in
    let busy = subst (Reach setting) begins (
      next waiting
        (begun (name_of asked) no_policies api refl refl (inl refl) refl (λ first e h. cc))) in
    subst (Reach setting) finishes (next busy (finished reviewing true refl refl))

is_there : lookup (name_of asked) idle.stored ≡ some asked
unfolding lookup
is_there = refl

is_open : IsOpen setting asked
unfolding needs_review
is_open = refl

Reach-IsWaiting_example : IsWaiting setting idle (name_of asked) asked
Reach-IsWaiting_example =
    Reach-IsWaiting setting idle (name_of asked) asked list_queue-IsQueue run refl is_there is_open

Reach-IsUnclaimed_example :
    (cluster : Cluster) × (cluster ≡ no_policies) × IsUnclaimed setting cluster web_request
Reach-IsUnclaimed_example =
    Reach-IsUnclaimed setting idle (name_of asked) asked list_queue-IsQueue run refl refl refl
      (λ h. h) refl is_there is_open
