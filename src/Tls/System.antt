-- ===== src/Tls/System.antt =====
-- pkg/internal/webhook/tls/tls.go: `Start`, its goroutine for renewals and its polling. Each `select`
-- chooses freely among what is ready, so a run is a sequence of steps of a relation; time is not
-- modelled, and a timer may fire whenever it is waited for.
pub mod Progress
use cert_manager_approver_po.Common.{
  ℤ, String, Bool, true, false, Option, none, some, List, ◌≡◌, Error,
}
use cert_manager_approver_po.Tls.{
  Provider, Authority, Regenerated, finished, failed, blocked, crashed, regenerate_certificate,
  Message, nothing, closed, stopped_with, created, context_canceled, poll_new,
}

-- The goroutine: before its first receive, waiting for the timer of a moment, asking for a renewal after
-- the timer, returned with its channel closed, or in the panic of "Unreacheable".
pub data Renewer : Type 0 where
  starting ended unreachable : Renewer
  waiting due : ℤ → Renewer

-- It has a moment, and selects on the context and on the next moment.
abbrev pub is_timed : Renewer → Bool
is_timed starting = false
is_timed (waiting moment) = true
is_timed (due moment) = true
is_timed ended = false
is_timed unreachable = false

-- The polling: between two calls of the condition, in its `select`, waiting to send a moment with the
-- lock held, returned from `Start`, or in a panic of other code.
pub data Poller : Type 0 where
  resting selecting aborted : Poller
  sending : ℤ → Poller
  returned : Error → Poller

pub record System : Type 0 where
  pub provider : Provider
  pub renewer : Renewer
  pub poller : Poller
  pub cancelled : Bool

unfoldable pub begin : Provider → System
begin t = record { provider = t; renewer = starting; poller = selecting; cancelled = false }

-- `wait.ErrWaitTimeout`
abbrev pub wait_timeout : Error
wait_timeout = Error.reported "timed out waiting for the condition"

-- The case of the authority's channel.
unfoldable pub on_authority : Message → Poller
on_authority nothing = selecting
on_authority (stopped_with none) = resting
on_authority (stopped_with (some e)) =
    returned (Error.wrapped "failed to run certificate authority" e)
on_authority closed = returned context_canceled

-- The end of a case that regenerates: an error is logged, and the condition returns false.
unfoldable pub resume : Regenerated → System → System
resume (finished t) s = record s { provider = t; poller = resting }
resume (failed e t) s = record s { provider = t; poller = resting }
resume (blocked moment t) s = record s { provider = t; poller = sending moment }
resume crashed s = record s { poller = aborted }

-- The goroutine takes the moment of the buffer.
abbrev pub take_moment : ℤ → System → System
take_moment moment s = record s {
  provider = record s.provider { next_renew = none };
  renewer = waiting moment;
}

-- The waiting send gets into the buffer.
abbrev pub put_moment : ℤ → System → System
put_moment moment s = record s {
  provider = record s.provider { next_renew = some moment };
  poller = resting;
}

module _ (service_name secret_namespace : String) where
  unfoldable pub regenerate : Authority → System → System
  regenerate a s = resume (regenerate_certificate a service_name secret_namespace s.provider) s

  pub data Step (s : System) : System → Type 1 where
    cancel : s.cancelled ≡ false → Step s (record s { cancelled = true })
    -- The goroutine.
    first_moment :
        (moment : ℤ)
        → s.renewer ≡ starting
        → s.provider.next_renew ≡ some moment
        → Step s (take_moment moment s)
    no_moment :
        s.renewer ≡ starting
        → s.provider.next_renew ≡ none
        → Step s (record s { renewer = unreachable })
    fire : (moment : ℤ) → s.renewer ≡ waiting moment → Step s (record s { renewer = due moment })
    next_moment :
        (moment : ℤ)
        → is_timed s.renewer ≡ true
        → s.provider.next_renew ≡ some moment
        → Step s (take_moment moment s)
    end : is_timed s.renewer ≡ true → s.cancelled ≡ true → Step s (record s { renewer = ended })
    -- The polling.
    tick : s.poller ≡ resting → Step s (record s { poller = selecting })
    time_out :
        s.poller ≡ resting
        → s.cancelled ≡ true
        → Step s (record s { poller = returned wait_timeout })
    context_done :
        s.poller ≡ selecting
        → s.cancelled ≡ true
        → Step s (record s { poller = returned context_canceled })
    authority : (m : Message) → s.poller ≡ selecting → Step s (record s { poller = on_authority m })
    rotated : (a : Authority) → s.poller ≡ selecting → Step s (regenerate a s)
    rotation_closed :
        s.poller ≡ selecting → Step s (record s { poller = returned context_canceled })
    requested :
        (a : Authority) (moment : ℤ)
        → s.poller ≡ selecting
        → s.renewer ≡ due moment
        → Step s (regenerate a (record s { renewer = waiting moment }))
    request_closed :
        (a : Authority) → s.poller ≡ selecting → s.renewer ≡ ended → Step s (regenerate a s)
    sent :
        (moment : ℤ)
        → s.poller ≡ sending moment
        → s.provider.next_renew ≡ none
        → Step s (put_moment moment s)

  -- The states of every run, from a provider that `New` returned with whatever files it found.
  pub data Reach (is_wait_timeout : Error → Bool) : System → Type 1 where
    start :
        (cancelled : Bool) (calls : List (Message × Authority)) (found t : Provider)
        → found.next_renew ≡ none
        → poll_new is_wait_timeout service_name secret_namespace cancelled calls found ≡ created t
        → Reach is_wait_timeout (begin t)
    next : {s v : System} → Reach is_wait_timeout s → Step s v → Reach is_wait_timeout v
