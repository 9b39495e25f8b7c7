-- ===== src/Controllers/Watch.antt =====
-- pkg/internal/controllers/certificaterequestpolicies.go: the goroutine that forwards names from the
-- enqueue channels of the reconcilers. `reflect.Select` and the inner `select` choose freely among the
-- channels that are ready, so a run is a sequence of steps of a relation.
pub mod Reach
use cert_manager_approver_po.Common.{
  ℕ, zero, suc, ◌<◌, ◌==◌, ◌≡◌, String, Bool, true, false, Option, none, some, List, [], ◌∷◌, ◌++◌,
  length, is_nil, if◌then◌else◌,
}
use cert_manager_approver_po.Approver.{Reconciler}

-- The channel of a select case: one of a reconciler, by its name, the context's, or nil.
pub data Channel : Type 0 where
  enqueue : String → Channel
  done nil : Channel

-- The loop that collects the channels that are not nil.
unfoldable pub select_cases : List Reconciler → List Channel
select_cases [] = []
select_cases (reconciler ∷ reconcilers) =
    let rest = select_cases reconcilers in
    elim reconciler.enqueue_chan [ none ↦ rest | some channel ↦ enqueue channel ∷ rest ]

-- `enqueueListSelect[chosen].Chan = reflect.ValueOf(nil)`
unfoldable pub clear : ℕ → List Channel → List Channel
clear i [] = []
clear zero (c ∷ cases) = nil ∷ cases
clear (suc i) (c ∷ cases) = c ∷ clear i cases

abbrev pub channel_at : List Channel → ℕ → Channel
channel_at [] i = nil
channel_at (c ∷ cases) zero = c
channel_at (c ∷ cases) (suc i) = channel_at cases i

-- The goroutine: the cases it selects on, the names it has sent to the controller, and whether it has
-- returned; `held` is the name of the event that it waits to send, and `none` while it selects.
-- `cancelled` is the state of the context; `received` is a ghost, what has been taken from the channels
-- of the reconcilers.
pub record Watcher : Type 0 where
  pub cases : List Channel
  pub held : Option String
  pub forwarded : List String
  pub received : List String
  pub cancelled : Bool
  pub returned : Bool

-- The start of the runnable, which appends the context's channel.
unfoldable pub start : List Reconciler → Watcher
start reconcilers = record {
  cases = select_cases reconcilers ++ done ∷ [];
  held = none;
  forwarded = [];
  received = [];
  cancelled = false;
  returned = false;
}

-- The runnable is added only if some reconciler gave a channel.
unfoldable pub is_watched : List Reconciler → Bool
is_watched reconcilers = if is_nil (select_cases reconcilers) then false else true

-- `chosen == len(enqueueListSelect)-1`
unfoldable pub is_context : ℕ → List Channel → Bool
is_context chosen cases = suc chosen == length cases

-- The branch for a channel that is closed.
unfoldable pub on_closed : ℕ → Watcher → Watcher
on_closed chosen w =
    if is_context chosen w.cases
    then record w { returned = true }
    else record w { cases = clear chosen w.cases }

-- What the goroutine and the channels do. A nil channel is never chosen; the context's channel never
-- yields a value, and is closed once the context is cancelled. The inner `select` waits until the
-- controller takes the name or the context is cancelled, and chooses freely where both have happened.
pub data Step (w : Watcher) : Watcher → Type 0 where
  cancel : w.cancelled ≡ false → Step w (record w { cancelled = true })
  -- `reflect.Select`
  closed :
      (chosen : ℕ) (channel : String)
      → w.returned ≡ false
      → w.held ≡ none
      → channel_at w.cases chosen ≡ enqueue channel
      → Step w (on_closed chosen w)
  context_done :
      (chosen : ℕ)
      → w.returned ≡ false
      → w.held ≡ none
      → channel_at w.cases chosen ≡ done
      → w.cancelled ≡ true
      → Step w (on_closed chosen w)
  receive :
      (chosen : ℕ) (channel name : String)
      → w.returned ≡ false
      → w.held ≡ none
      → channel_at w.cases chosen ≡ enqueue channel
      → Step w (record w { held = some name; received = w.received ++ name ∷ [] })
  -- The inner `select`
  forward :
      (name : String)
      → w.returned ≡ false
      → w.held ≡ some name
      → Step w (record w { held = none; forwarded = w.forwarded ++ name ∷ [] })
  abandon :
      (name : String)
      → w.returned ≡ false
      → w.held ≡ some name
      → w.cancelled ≡ true
      → Step w (record w { returned = true })
