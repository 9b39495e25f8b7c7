-- ===== src/Controllers/Loop/Finish.antt =====
-- pkg/internal/controllers/certificaterequests.go: a reconcile answers a request, or comes back to it.
use mathlib.Core.Path.{subst}
use cert_manager_approver_po.Common.{
  Bool, true, false, Bool-cases, none, some, [], ◌∷◌, ◌≡◌, refl, sym, ◌∙◌, ap, ◌⊎◌, inl, inr,
  Outcome, ◌||◌,
}
use cert_manager_approver_po.Predicate.Filter.{In-append}
use cert_manager_approver_po.Controllers.Patch.{NamespacedName, Reconciled, reconcile_with}
use cert_manager_approver_po.Controllers.Requests.{generate_request_patch}
use cert_manager_approver_po.Controllers.Parties.{
  Stored, name_of, lookup, IsQueue, Work, comes_back, has_panicked, put,
}
use cert_manager_approver_po.Controllers.Loop.{Setting, requeue, finish_work, write}
use cert_manager_approver_po.Controllers.Loop.Store.{lookup-put, lookup-name}
use cert_manager_approver_po.Controllers.Loop.Waiting.{
  State, IsOpen, Acts, IsWaiting, to_arrive, to_be_told, queued, in_work, settled, Inv,
  IsWaiting-keeps,
}
use cert_manager_approver_po.Controllers.Loop.Patched.{Back, patched-Patched}

neither : (a b : Bool) → (a || b) ≡ false → (a ≡ false) × (b ≡ false)
neither true b h = cc
neither false b h = (refl, h)

module _ (setting : Setting) where
  open setting use {queue}

  -- A reason to wait that is not the reconcile at hand.
  split_work :
      (s : State setting) (n : NamespacedName) (r : Stored)
      → IsWaiting setting s n r
      → IsWaiting setting (record s { work = none }) n r
        ⊎ ((w : Work) × (s.work ≡ some w) × (w.name ≡ n) × Acts setting w.computed)
  split_work s n r (to_arrive a m e o) = inl (to_arrive a m e o)
  split_work s n r (to_be_told k h) = inl (to_be_told k h)
  split_work s n r (queued q) = inl (queued q)
  split_work s n r (in_work w h e acts) = inr (w, h, e, acts)
  split_work s n r (settled h) = inl (settled h)

  module _ (lawful : IsQueue queue) (n : NamespacedName) (m : Outcome Reconciled)
      (s : State setting) where
    requeue-kept :
        (k : NamespacedName)
        → queue.Waits k s.waiting
        → queue.Waits k (requeue setting n m s).waiting
    unfolding requeue
    requeue-kept k h = elim (Bool-cases (comes_back m)) [
      | inl again ↦ rw again (lawful.kept k n s.waiting h)
      | inr over ↦ rw over h
    ]

    requeue-IsWaiting :
        (k : NamespacedName) (r : Stored)
        → IsWaiting setting s k r
        → IsWaiting setting (requeue setting n m s) k r
    unfolding requeue
    requeue-IsWaiting k r h =
        IsWaiting-keeps setting s _ k r (λ a i. i) refl (requeue-kept k) refl refl h

    -- A reconcile that comes back puts its name in the queue of a process that still runs.
    requeue-Back :
        Back m
        → (requeue setting n m s).stopped ≡ false
        → queue.Waits n (requeue setting n m s).waiting
    unfolding requeue
    requeue-Back (inl again) running = rw again (lawful.added n s.waiting)
    requeue-Back (inr crashed) running =
        let (calm, _) = neither (has_panicked m) s.stopped running in cc

    requeue-running : (requeue setting n m s).stopped ≡ false → s.stopped ≡ false
    unfolding requeue
    requeue-running running = let (_, still) = neither (has_panicked m) s.stopped running in still

    requeue-stored : (requeue setting n m s).stored ≡ s.stored
    unfolding requeue
    requeue-stored = refl

    requeue-work : (requeue setting n m s).work ≡ s.work
    unfolding requeue
    requeue-work = refl

  module _ (lawful : IsQueue queue) (w : Work) (s : State setting) (busy : s.work ≡ some w)
      (inv : Inv setting s) where
    abbrev base : State setting
    base = record s { work = none }

    -- The reconcile has changed no request.
    unchanged-Inv :
        (m : Outcome Reconciled)
        → (Acts setting w.computed → Back m) ⊎ (lookup w.name s.stored ≡ none)
        → Inv setting (requeue setting w.name m base)
    unchanged-Inv m how = record {
      waits = λ running n r found is_open.
          let before : lookup n s.stored ≡ some r =
            sym (ap (lookup n) (requeue-stored lawful w.name m base)) ∙ found in
          elim (split_work s n r
            (inv.waits (requeue-running lawful w.name m base running) n r before is_open)) [
              | inl reason ↦ requeue-IsWaiting lawful w.name m base n r reason
              | inr (x, h, e, acts) ↦
                  let same : x ≡ w = cc in
                  let names : w.name ≡ n = sym (ap (λ (y : Work). y.name) same) ∙ e in
                  elim how [
                    | inl back ↦ queued (
                        subst (λ k. queue.Waits k (requeue setting w.name m base).waiting) names
                          (requeue-Back lawful w.name m base
                            (back (subst (λ (y : Work). Acts setting y.computed) same acts))
                            running))
                    | inr absent ↦
                        let missing : lookup n s.stored ≡ none = rw (← names) absent in cc
                  ]
            ];
      aggregates = λ x h. let none_left = sym (requeue-work lawful w.name m base) ∙ h in cc;
    }

    -- The reconcile has written a request of its name, whose event is to come.
    written-Inv :
        (m : Outcome Reconciled) (x : Stored)
        → name_of x ≡ w.name
        → Inv setting (requeue setting w.name m (write setting x base))
    written-Inv m x named =
        let after = write setting x base in
        record {
          waits = λ running n r found is_open.
              let here : lookup n (put x s.stored) ≡ some r =
                sym (ap (lookup n) (requeue-stored lawful w.name m after)) ∙ found in
              requeue-IsWaiting lawful w.name m after n r (elim (lookup-put n x s.stored r here) [
                | inl e ↦
                    to_arrive x ((In-append x s.arrivals (x ∷ [])).1 (inr (inl refl)))
                      (ap name_of (sym e) ∙ lookup-name n (put x s.stored) r here)
                      (subst (IsOpen setting) e is_open)
                | inr (other, before) ↦
                    elim (split_work s n r (
                      inv.waits (requeue-running lawful w.name m after running) n r before
                        is_open)) [
                          | inl reason ↦
                              IsWaiting-keeps setting base after n r
                                (λ a i. (In-append a s.arrivals (x ∷ [])).1 (inl i)) refl (λ h. h)
                                refl refl reason
                          | inr (y, h, e, acts) ↦
                              let same : y ≡ w = cc in
                              absurd (other (named ∙ sym (ap (λ (z : Work). z.name) same) ∙ e))
                        ]
              ]);
          aggregates = λ y h. let none_left = sym (requeue-work lawful w.name m after) ∙ h in cc;
        }

    pub finish-Inv : (landed : Bool) → Inv setting (finish_work setting w landed s)
    unfolding finish_work
    finish-Inv landed =
        let m = reconcile_with w.client (generate_request_patch w.client) w.name w.computed in
        elim (patched-Patched setting (Acts setting w.computed) w.client (inv.aggregates w busy)
          w.name base w.computed landed (λ acts. acts)) [
            | inl (same, how) ↦ rw same (unchanged-Inv m how)
            | inr (x, named, same) ↦ rw same (written-Inv m x named)
          ]
