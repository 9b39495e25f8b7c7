-- ===== src/Controllers/Loop/Patched.antt =====
-- pkg/internal/controllers/certificaterequests.go: what the patch of a reconcile changes.
use cert_manager_approver_po.Common.{
  Bool, true, false, Option, none, some, Option-cases, List, ◌≡◌, ◌≢◌, refl, ◌⊎◌, inl, inr, Outcome,
  ok, err, panic, Error, if◌then◌else◌,
}
use cert_manager_approver_po.Controllers.Patch.{
  NamespacedName, PatchObject, ApplyPatch, patch_options, Effect, Reconciled, StatusPatch, Client,
  finish, send, send_status, reconcile_with,
}
use cert_manager_approver_po.Controllers.Requests.{RequestStatus, generate_request_patch}
use cert_manager_approver_po.Controllers.Parties.{
  Stored, name_of, lookup, IsAggregate, has_landed, comes_back, has_panicked,
}
use cert_manager_approver_po.Controllers.Loop.{
  Setting, apply_to, after_patch, after_status, patched, write,
}
use cert_manager_approver_po.Controllers.Loop.Store.{lookup-name}
use cert_manager_approver_po.Controllers.Loop.Waiting.{State, Acts}

-- The reconcile ends in an error, in `Requeue`, or not at all.
abbrev pub Back : Outcome Reconciled → Type 0
Back m = (comes_back m ≡ true) ⊎ (has_panicked m ≡ true)

panic-Back : Back panic
unfolding has_panicked
panic-Back = inr refl

err-Back : (e : Error) → Back (err e)
unfolding comes_back
err-Back e = inl refl

back_with_error : (done : Reconciled) → done.error ≢ none → comes_back (ok done) ≡ true
unfolding comes_back
back_with_error done failure = elim (Option-cases done.error) [
  | inl e ↦ absurd (failure e)
  | inr (e, h) ↦ rw h refl
]

back_with_requeue : (done : Reconciled) → done.result.requeue ≡ true → comes_back (ok done) ≡ true
unfolding comes_back
back_with_requeue done again = elim (Option-cases done.error) [
  | inl h ↦ rw (h, again) refl
  | inr (e, h) ↦ rw h refl
]

module _ (setting : Setting) where
  open setting use {conditions}

  -- A patch has changed nothing, and then the reconcile comes back, if the condition holds, or there is
  -- no such request; or it has written a request of that name.
  abbrev pub Patched :
      Type 0 → NamespacedName → State setting → State setting → Outcome Reconciled → Type 0
  Patched Q n s v done =
      ((v ≡ s) × ((Q → Back done) ⊎ (lookup n s.stored ≡ none)))
      ⊎ ((x : Stored) × (name_of x ≡ n) × (v ≡ write setting x s))

  module _ (Q : Type 0) (client : Client RequestStatus) (aggregate : IsAggregate client)
      (n : NamespacedName) (s : State setting) where
    apply_to-Patched :
        (status : RequestStatus) (o : Option Stored) (done : Outcome Reconciled)
        → lookup n s.stored ≡ o
        → Patched Q n s (apply_to setting o status s) done
    unfolding apply_to
    apply_to-Patched status none done h = inl (refl, inr h)
    apply_to-Patched status (some x) done h = inr (
      record x { conditions = conditions.merge status.conditions x.conditions },
      lookup-name n s.stored x h,
      refl,
    )

    answered-Patched :
        (r : StatusPatch RequestStatus) (effects : List Effect) (status : RequestStatus)
        (landed : Bool) (q : Outcome (Unit {0}))
        → Patched Q n s
            (if has_landed q landed then apply_to setting (lookup n s.stored) status s else s)
            (finish client (generate_request_patch client) r effects q)
    unfolding has_landed finish
    answered-Patched r effects status landed (ok _) =
        apply_to-Patched status (lookup n s.stored)
          (finish client (generate_request_patch client) r effects (ok tt)) refl
    answered-Patched r effects status true (err e) =
        apply_to-Patched status (lookup n s.stored)
          (finish client (generate_request_patch client) r effects (err e)) refl
    answered-Patched r effects status false (err e) =
        inl (refl, inl (λ _. inl (back_with_error _ (aggregate r.error _))))
    answered-Patched r effects status true panic =
        apply_to-Patched status (lookup n s.stored)
          (finish client (generate_request_patch client) r effects panic) refl
    answered-Patched r effects status false panic = inl (refl, inl (λ _. panic-Back))

    after_patch-Patched :
        (r : StatusPatch RequestStatus) (status : RequestStatus) (landed : Bool)
        (m : Outcome (PatchObject × ApplyPatch))
        → Patched Q n s
            (after_patch setting client landed n status m s)
            (send client (generate_request_patch client) r m)
    unfolding after_patch send
    after_patch-Patched r status landed (ok (object, patch)) =
        answered-Patched r _ status landed (client.patch object patch patch_options)
    after_patch-Patched r status landed (err e) =
        inl (refl, inl (λ _. inl (back_with_error _ (aggregate r.error _))))
    after_patch-Patched r status landed panic = inl (refl, inl (λ _. panic-Back))

    after_status-Patched :
        (r : StatusPatch RequestStatus) (landed : Bool) (o : Option RequestStatus)
        → r.patch ≡ o
        → (Q → Acts setting (ok r))
        → Patched Q n s
            (after_status setting client landed n o s)
            (send_status client (generate_request_patch client) n r o)
    unfolding after_status send_status
    after_status-Patched r landed none h acts = inl (
      refl,
      inl (λ q. elim (acts q) [
        | inl failure ↦ inl (back_with_error _ failure)
        | inr (inl (again, _)) ↦ inl (back_with_requeue _ again)
        | inr (inr (status, patch)) ↦ cc
      ]),
    )
    after_status-Patched r landed (some status) h acts =
        after_patch-Patched r status landed (generate_request_patch client n status)

    pub patched-Patched :
        (computed : Outcome (StatusPatch RequestStatus)) (landed : Bool)
        → (Q → Acts setting computed)
        → Patched Q n s
            (patched setting client landed n computed s)
            (reconcile_with client (generate_request_patch client) n computed)
    unfolding patched reconcile_with
    patched-Patched (ok r) landed acts = after_status-Patched r landed r.patch refl acts
    patched-Patched (err e) landed acts = inl (refl, inl (λ _. err-Back e))
    patched-Patched panic landed acts = inl (refl, inl (λ _. panic-Back))
