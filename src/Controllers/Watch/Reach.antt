-- ===== src/Controllers/Watch/Reach.antt =====
-- pkg/internal/controllers/certificaterequestpolicies.go: what holds of the goroutine in every run.
use mathlib.Core.Path.{subst}
use mathlib.Core.List.{append-nil}
use cert_manager_approver_po.Common.{
  ℕ, zero, suc, ==_iff, ◌≡◌, ◌≢◌, refl, sym, ◌∙◌, ap, inl, inr, ◌↔◌, String, Option, true, false,
  Bool-cases, Option-cases, none, some, List, [], ◌∷◌, ◌++◌, length, arith,
}
use cert_manager_approver_po.Approver.{Reconciler}
use cert_manager_approver_po.Controllers.Watch.{
  Channel, enqueue, done, select_cases, clear, channel_at, Watcher, start, is_context, on_closed,
  Step, cancel, closed, context_done, receive, forward, abandon,
}

pub data Reach (reconcilers : List Reconciler) : Watcher → Type 0 where
  begin : Reach reconcilers (start reconcilers)
  next : {w v : Watcher} → Reach reconcilers w → Step w v → Reach reconcilers v

-- The context's channel is the last, and only the last.
abbrev pub EndsDone : List Channel → Type 0
EndsDone [] = ⊥
EndsDone (c ∷ []) = c ≡ done
EndsDone (c ∷ d ∷ cases) = (c ≢ done) × EndsDone (d ∷ cases)

done_iff :
    (cases : List Channel) (i : ℕ)
    → EndsDone cases
    → (channel_at cases i ≡ done) ↔ (suc i ≡ length cases)
done_iff [] i e = absurd e
done_iff (c ∷ []) zero e = (λ h. refl, λ h. e)
done_iff (c ∷ []) (suc i) e = (λ h. cc, λ h. absurd (omega arith))
done_iff (c ∷ d ∷ cases) zero (n, e) = (λ h. absurd (n h), λ h. absurd (omega arith))
done_iff (c ∷ d ∷ cases) (suc i) (n, e) =
    let (to, from) = done_iff (d ∷ cases) i e in (λ h. ap suc (to h), λ h. from (omega arith))

clear-EndsDone :
    (cases : List Channel) (i : ℕ)
    → EndsDone cases
    → channel_at cases i ≢ done
    → EndsDone (clear i cases)
unfolding clear
clear-EndsDone [] i e h = e
clear-EndsDone (c ∷ []) zero e h = absurd (h e)
clear-EndsDone (c ∷ []) (suc i) e h = e
clear-EndsDone (c ∷ d ∷ cases) zero (n, e) h = ((λ k. cc), e)
clear-EndsDone (c ∷ d ∷ cases) (suc zero) (n, e) h = (n, clear-EndsDone (d ∷ cases) zero e h)
clear-EndsDone (c ∷ d ∷ []) (suc (suc i)) (n, e) h = (n, e)
clear-EndsDone (c ∷ d ∷ b ∷ cases) (suc (suc i)) (n, e) h =
    (n, clear-EndsDone (d ∷ b ∷ cases) (suc i) e h)

EndsDone-context : (cases : List Channel) → EndsDone cases → (i : ℕ) × (channel_at cases i ≡ done)
EndsDone-context [] e = absurd e
EndsDone-context (c ∷ []) e = (0, e)
EndsDone-context (c ∷ d ∷ cases) (n, e) = let (i, h) = EndsDone-context (d ∷ cases) e in (suc i, h)

cons-EndsDone :
    (c : Channel) (cases : List Channel) → c ≢ done → EndsDone cases → EndsDone (c ∷ cases)
cons-EndsDone c [] n e = absurd e
cons-EndsDone c (d ∷ cases) n e = (n, e)

select_cases-EndsDone :
    (reconcilers : List Reconciler) → EndsDone (select_cases reconcilers ++ done ∷ [])
unfolding select_cases
select_cases-EndsDone [] = refl
select_cases-EndsDone (r ∷ reconcilers) = elim (Option-cases r.enqueue_chan) [
  | inl absent ↦ rw absent (select_cases-EndsDone reconcilers)
  | inr (channel, present) ↦
      rw present (cons-EndsDone (enqueue channel) _ (λ h. cc) (select_cases-EndsDone reconcilers))
]

-- The names that have been taken and not been sent.
abbrev pub pending : Option String → List String
pending none = []
pending (some name) = name ∷ []

-- What holds before and after every step.
pub record Inv (w : Watcher) : Type 0 where
  pub shape : EndsDone w.cases
  pub stopped : w.returned ≡ true → w.cancelled ≡ true
  pub kept : w.received ≡ w.forwarded ++ pending w.held

start-Inv : (reconcilers : List Reconciler) → Inv (start reconcilers)
unfolding start
start-Inv reconcilers = record {
  shape = select_cases-EndsDone reconcilers;
  stopped = λ h. cc;
  kept = refl;
}

-- A closed channel of a reconciler is cleared, and the loop goes on.
on_closed-enqueue :
    (w : Watcher) (i : ℕ) (channel : String)
    → EndsDone w.cases
    → channel_at w.cases i ≡ enqueue channel
    → on_closed i w ≡ record w { cases = clear i w.cases }
unfolding on_closed is_context
on_closed-enqueue w i channel e h = elim (Bool-cases (is_context i w.cases)) [
  | inl last ↦ let wrong = (done_iff w.cases i e).1 ((==_iff (suc i) (length w.cases)).0 last) in cc
  | inr other ↦ rw other refl
]

-- The context's channel ends it.
on_closed-done :
    (w : Watcher) (i : ℕ)
    → EndsDone w.cases
    → channel_at w.cases i ≡ done
    → on_closed i w ≡ record w { returned = true }
unfolding on_closed is_context
on_closed-done w i e h = rw ((==_iff (suc i) (length w.cases)).1 ((done_iff w.cases i e).0 h)) refl

Step-Inv : {w v : Watcher} → Step w v → Inv w → Inv v
Step-Inv (cancel _) inv = record { shape = inv.shape; stopped = λ _. refl; kept = inv.kept }
Step-Inv {w} (closed i channel running idle h) inv =
    subst Inv (sym (on_closed-enqueue w i channel inv.shape h)) (record {
      shape = clear-EndsDone w.cases i inv.shape (λ k. cc);
      stopped = inv.stopped;
      kept = inv.kept;
    })
Step-Inv {w} (context_done i running idle h cancelled) inv =
    subst Inv (sym (on_closed-done w i inv.shape h))
      (record { shape = inv.shape; stopped = λ _. cancelled; kept = inv.kept })
Step-Inv {w} (receive i channel name running idle h) inv =
    let same : w.received ≡ w.forwarded ++ [] =
      inv.kept ∙ ap (λ o. w.forwarded ++ pending o) idle in
    record {
      shape = inv.shape;
      stopped = inv.stopped;
      kept = ap (λ l. l ++ name ∷ []) (same ∙ append-nil w.forwarded);
    }
Step-Inv {w} (forward name running holds) inv = record {
  shape = inv.shape;
  stopped = inv.stopped;
  kept =
      inv.kept
      ∙ ap (λ o. w.forwarded ++ pending o) holds
      ∙ sym (append-nil (w.forwarded ++ name ∷ []));
}
Step-Inv (abandon name running holds cancelled) inv = record {
  shape = inv.shape;
  stopped = λ _. cancelled;
  kept = inv.kept;
}

Reach-Inv : {reconcilers : List Reconciler} {w : Watcher} → Reach reconcilers w → Inv w
Reach-Inv {reconcilers} begin = start-Inv reconcilers
Reach-Inv (next r s) = Step-Inv s (Reach-Inv r)

-- In every run: the names that the goroutine took from the channels of the reconcilers are, in order,
-- those that it has sent to the controller and then at most one more, which it holds; and it returns
-- only after the context is cancelled.
pub Reach-forwarded :
    (reconcilers : List Reconciler) (w : Watcher)
    → Reach reconcilers w
    → (w.received ≡ w.forwarded ++ pending w.held) × (w.returned ≡ true → w.cancelled ≡ true)
Reach-forwarded reconcilers w r = let inv = Reach-Inv r in (inv.kept, inv.stopped)

-- In every run: once the context is cancelled, a goroutine that has not returned can return in its
-- next step; and a closed channel of a reconciler never makes it return.
pub Reach-returns :
    (reconcilers : List Reconciler) (w : Watcher)
    → Reach reconcilers w
    → w.returned ≡ false
    → (w.cancelled ≡ true → (v : Watcher) × Step w v × (v.returned ≡ true))
      × ((i : ℕ) (channel : String)
          → channel_at w.cases i ≡ enqueue channel
          → (on_closed i w).returned ≡ false)
Reach-returns reconcilers w r running =
    let shape = (Reach-Inv r).shape in
    (
      λ cancelled. elim (Option-cases w.held) [
        | inl idle ↦
            let (i, last) = EndsDone-context w.cases shape in
            (
              on_closed i w,
              context_done i running idle last cancelled,
              ap (λ (v : Watcher). v.returned) (on_closed-done w i shape last),
            )
        | inr (name, holds) ↦
            (record w { returned = true }, abandon name running holds cancelled, refl)
      ],
      λ i channel h.
          ap (λ (v : Watcher). v.returned) (on_closed-enqueue w i channel shape h) ∙ running,
    )
