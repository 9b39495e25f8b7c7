-- ===== src/Tls/System/Progress.antt =====
-- pkg/internal/webhook/tls/tls.go: what holds of `Start` and its goroutine in every run.
use mathlib.Core.Path.{subst}
use cert_manager_approver_po.Common.{
  ℕ, ℤ, String, Bool, true, false, Option, some, Option-cases, List, ◌≡◌, ◌≢◌, refl, sym, ◌∙◌, ap,
  ◌⊎◌, inl, inr, Error,
}
use cert_manager_approver_po.Tls.{
  Files, Authority, Regenerated, finished, failed, blocked, crashed, dns_name,
}
use cert_manager_approver_po.Tls.Update.{
  Pair, Ends, regenerate_certificate-Ends, Begins, poll_new-Begins,
}
use cert_manager_approver_po.Tls.System.{
  Renewer, starting, ended, unreachable, waiting, due, is_timed, resting, sending, System, begin,
  resume, take_moment, put_moment, regenerate, Step, cancel, first_moment, no_moment, fire,
  next_moment, end, tick, time_out, context_done, authority, rotated, rotation_closed, requested,
  request_closed, sent, Reach, start, next,
}

-- The goroutine is never in its panic, has a moment to start with, and ends only when cancelled.
abbrev RenewerFits : Renewer → Option ℤ → Bool → Type 0
RenewerFits starting buffer cancelled = (moment : ℤ) × (buffer ≡ some moment)
RenewerFits ended buffer cancelled = cancelled ≡ true
RenewerFits unreachable buffer cancelled = ⊥
RenewerFits (waiting moment) buffer cancelled = Unit
RenewerFits (due moment) buffer cancelled = Unit

abbrev Inv : System → Type 0
Inv s = RenewerFits s.renewer s.provider.next_renew s.cancelled

at_renewer :
    {r : Renewer} (s : System)
    → Inv s
    → s.renewer ≡ r
    → RenewerFits r s.provider.next_renew s.cancelled
at_renewer s inv h = subst (λ r. RenewerFits r s.provider.next_renew s.cancelled) h inv

-- A send into the buffer keeps it.
fits_filled :
    (r : Renewer) (buffer : Option ℤ) (moment : ℤ) (cancelled : Bool)
    → RenewerFits r buffer cancelled
    → RenewerFits r (some moment) cancelled
fits_filled starting buffer moment cancelled h = (moment, refl)
fits_filled ended buffer moment cancelled h = h
fits_filled unreachable buffer moment cancelled h = h
fits_filled (waiting _) buffer moment cancelled h = h
fits_filled (due _) buffer moment cancelled h = h

fits_cancelled :
    (r : Renewer) (buffer : Option ℤ) (cancelled : Bool)
    → RenewerFits r buffer cancelled
    → RenewerFits r buffer true
fits_cancelled starting buffer cancelled h = h
fits_cancelled ended buffer cancelled h = refl
fits_cancelled unreachable buffer cancelled h = h
fits_cancelled (waiting _) buffer cancelled h = h
fits_cancelled (due _) buffer cancelled h = h

resume-Inv :
    (P : Files → ℤ → Type 0) (key : List ℕ) (m : Regenerated) (s : System)
    → Ends P key s.provider.next_renew m
    → Inv s
    → Inv (resume m s)
unfolding resume
resume-Inv P key (finished t) s (empty, (moment, full, p)) inv =
    rw full (fits_filled s.renewer s.provider.next_renew moment s.cancelled inv)
resume-Inv P key (failed e t) s (same, p) inv = rw same inv
resume-Inv P key (blocked moment t) s (same, full, p) inv = rw same inv
resume-Inv P key crashed s ends inv = inv

module _ (service_name secret_namespace : String) where
  regenerate-Inv :
      (a : Authority) (s : System) → Inv s → Inv (regenerate service_name secret_namespace a s)
  unfolding regenerate
  regenerate-Inv a s inv =
      resume-Inv (Pair a (dns_name service_name secret_namespace)) s.provider.files.key _ s
        (regenerate_certificate-Ends a service_name secret_namespace s.provider) inv

  Step-Inv : {s v : System} → Step service_name secret_namespace s v → Inv s → Inv v
  Step-Inv {s} (cancel _) inv = fits_cancelled s.renewer s.provider.next_renew s.cancelled inv
  Step-Inv (first_moment moment _ _) inv = tt
  Step-Inv {s} (no_moment h empty) inv = let (moment, full) = at_renewer s inv h in cc
  Step-Inv (fire moment _) inv = tt
  Step-Inv (next_moment moment _ _) inv = tt
  Step-Inv (end _ cancelled) inv = cancelled
  Step-Inv (tick _) inv = inv
  Step-Inv (time_out _ _) inv = inv
  Step-Inv (context_done _ _) inv = inv
  Step-Inv (authority m _) inv = inv
  Step-Inv {s} (rotated a _) inv = regenerate-Inv a s inv
  Step-Inv (rotation_closed _) inv = inv
  Step-Inv {s} (requested a moment _ _) inv =
      regenerate-Inv a (record s { renewer = waiting moment }) tt
  Step-Inv {s} (request_closed a _ _) inv = regenerate-Inv a s inv
  Step-Inv {s} (sent moment _ _) inv =
      fits_filled s.renewer s.provider.next_renew moment s.cancelled inv

  module _ (is_wait_timeout : Error → Bool) where
    Reach-Inv : {s : System} → Reach service_name secret_namespace is_wait_timeout s → Inv s
    unfolding begin
    Reach-Inv (start cancelled calls found t empty made) =
        subst (Begins cancelled) made (
          poll_new-Begins is_wait_timeout service_name secret_namespace cancelled calls found empty)
    Reach-Inv (next r s) = Step-Inv s (Reach-Inv r)

  -- In two steps at most the waiting send gets into the buffer, and the polling rests.
  abbrev pub Delivers : System → Type 1
  Delivers s =
      (w : System) × (v : System) × ((w ≡ s) ⊎ Step service_name secret_namespace s w)
      × Step service_name secret_namespace w v
      × (v.poller ≡ resting)

  take-Delivers :
      (s : System) (moment waiting_moment : ℤ)
      → s.poller ≡ sending moment
      → Step service_name secret_namespace s (take_moment waiting_moment s)
      → Delivers s
  take-Delivers s moment waiting_moment h step =
      let w = take_moment waiting_moment s in
      (w, put_moment moment w, inr step, sent moment h refl, refl)

  Inv-Delivers :
      (r : Renewer) (s : System) (moment waiting_moment : ℤ)
      → s.renewer ≡ r
      → RenewerFits r s.provider.next_renew s.cancelled
      → s.cancelled ≡ false
      → s.poller ≡ sending moment
      → s.provider.next_renew ≡ some waiting_moment
      → Delivers s
  Inv-Delivers starting s moment w at inv running h full =
      take-Delivers s moment w h (first_moment w at full)
  Inv-Delivers ended s moment w at inv running h full = cc
  Inv-Delivers unreachable s moment w at inv running h full = absurd inv
  Inv-Delivers (waiting m) s moment w at inv running h full =
      take-Delivers s moment w h (next_moment w (ap is_timed at) full)
  Inv-Delivers (due m) s moment w at inv running h full =
      take-Delivers s moment w h (next_moment w (ap is_timed at) full)

-- In every run from a provider that `New` created: the goroutine never comes to its panic
-- "Unreacheable", it ends only once the context is cancelled, and while the context is not cancelled a
-- polling that waits, with the lock held, to send a moment can deliver it within two steps and rest.
pub Reach-Delivers :
    (is_wait_timeout : Error → Bool) (service_name secret_namespace : String) (s : System)
    → Reach service_name secret_namespace is_wait_timeout s
    → (s.renewer ≢ unreachable)
      × (s.renewer ≡ ended → s.cancelled ≡ true)
      × ((moment : ℤ)
          → s.cancelled ≡ false
          → s.poller ≡ sending moment
          → Delivers service_name secret_namespace s)
Reach-Delivers is_wait_timeout service_name secret_namespace s r =
    let inv = Reach-Inv service_name secret_namespace is_wait_timeout r in
    (
      λ h. at_renewer s inv h,
      λ h. at_renewer s inv h,
      λ moment running h. elim (Option-cases s.provider.next_renew) [
        | inl empty ↦ (s, put_moment moment s, inl refl, sent moment h empty, refl)
        | inr (w, full) ↦
            Inv-Delivers service_name secret_namespace s.renewer s moment w refl inv running h full
      ],
    )

-- The goroutine has ended, and the polling waits for room in a full buffer.
abbrev pub IsStranded : System → Type 0
IsStranded s =
    (s.renewer ≡ ended)
    × (s.cancelled ≡ true)
    × ((moment : ℤ) × (s.poller ≡ sending moment))
    × ((moment : ℤ) × (s.provider.next_renew ≡ some moment))

-- A stranded provider stays stranded at every step: `Start` does not return after all, and the lock
-- stays held.
pub Step-IsStranded :
    (service_name secret_namespace : String) {s v : System}
    → Step service_name secret_namespace s v
    → IsStranded s
    → IsStranded v
Step-IsStranded service_name secret_namespace (cancel h) (gone, _, at, full) =
    (gone, refl, at, full)
Step-IsStranded service_name secret_namespace (first_moment _ h _) (gone, _, _, _) = cc
Step-IsStranded service_name secret_namespace (no_moment h _) (gone, _, _, _) = cc
Step-IsStranded service_name secret_namespace (fire _ h) (gone, _, _, _) = cc
Step-IsStranded service_name secret_namespace (next_moment _ h _) (gone, _, _, _) =
    let wrong = sym (ap is_timed gone) ∙ h in cc
Step-IsStranded service_name secret_namespace (end h _) (gone, _, _, _) =
    let wrong = sym (ap is_timed gone) ∙ h in cc
Step-IsStranded service_name secret_namespace (tick h) (_, _, (_, at), _) = cc
Step-IsStranded service_name secret_namespace (time_out h _) (_, _, (_, at), _) = cc
Step-IsStranded service_name secret_namespace (context_done h _) (_, _, (_, at), _) = cc
Step-IsStranded service_name secret_namespace (authority _ h) (_, _, (_, at), _) = cc
Step-IsStranded service_name secret_namespace (rotated _ h) (_, _, (_, at), _) = cc
Step-IsStranded service_name secret_namespace (rotation_closed h) (_, _, (_, at), _) = cc
Step-IsStranded service_name secret_namespace (requested _ _ h _) (_, _, (_, at), _) = cc
Step-IsStranded service_name secret_namespace (request_closed _ h _) (_, _, (_, at), _) = cc
Step-IsStranded service_name secret_namespace (sent _ _ h) (_, _, _, (_, full)) = cc
