-- ===== src/Tests/Watch.antt =====
-- The goroutine of pkg/internal/controllers/certificaterequestpolicies.go at a small run.
use cert_manager_approver_po.Common.{
  ◌≡◌, refl, ℕ, String, true, false, some, List, [], ◌∷◌, ◌++◌, ok,
}
use cert_manager_approver_po.Approver.{Reconciler, no_result}
use cert_manager_approver_po.Controllers.Watch.{
  enqueue, select_cases, channel_at, Watcher, start, on_closed, Step, cancel, receive, forward,
}
use cert_manager_approver_po.Controllers.Watch.Reach.{
  Reach, begin, next, pending, Reach-forwarded, Reach-returns,
}

abbrev watched : List Reconciler
watched =
    record {
      ready = λ policy. ok (record { ready = true; errors = []; result = no_result });
      enqueue_chan = some "files";
    }
    ∷ []

-- One name sent, one more held, and the context cancelled.
abbrev cancelled : Watcher
cancelled = record (start watched) {
  forwarded = "web" ∷ [];
  received = "web" ∷ "mail" ∷ [];
  held = some "mail";
  cancelled = true;
}

run : Reach watched cancelled
unfolding start select_cases
run =
    let one = next begin (receive 0 "files" "web" refl refl refl) in
    let sent = next one (forward "web" refl refl) in
    next (next sent (receive 0 "files" "mail" refl refl refl)) (cancel refl)

running : cancelled.returned ≡ false
unfolding start
running = refl

Reach-forwarded_example :
    (cancelled.received ≡ cancelled.forwarded ++ pending cancelled.held)
    × (cancelled.returned ≡ true → cancelled.cancelled ≡ true)
Reach-forwarded_example = Reach-forwarded watched cancelled run

Reach-returns_example :
    (cancelled.cancelled ≡ true → (v : Watcher) × Step cancelled v × (v.returned ≡ true))
    × ((i : ℕ) (channel : String)
        → channel_at cancelled.cases i ≡ enqueue channel
        → (on_closed i cancelled).returned ≡ false)
Reach-returns_example = Reach-returns watched cancelled run running
