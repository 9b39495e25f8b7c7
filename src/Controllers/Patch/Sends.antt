-- ===== src/Controllers/Patch/Sends.antt =====
-- pkg/internal/controllers/ssa_client: where a patch that is sent comes from.
use mathlib.Core.Path.{subst}
use cert_manager_approver_po.Common.{
  ◌≡◌, refl, sym, ◌∙◌, ap, inl, inr, Option, none, some, true, List, [], ◌∷◌, ◌++◌, Outcome, ok,
  err, panic, >>=-eq-ok,
}
use cert_manager_approver_po.Predicate.Filter.{In, In-append}
use cert_manager_approver_po.Controllers.Patch.{
  NamespacedName, PatchObject, ApplyPatch, PatchOptions, patch_options, Effect, Reconciled,
  StatusPatch, Client, finish, send, send_status, reconcile_with,
}

-- No patch is among the effects.
abbrev pub IsQuiet : List Effect → Type 0
IsQuiet effects =
    (o : PatchObject) (p : ApplyPatch) (options : PatchOptions)
    → ¬ In (Effect.sent o p options) effects

effects_of_ok :
    (a b : Reconciled) → ◌≡◌ {A = Outcome Reconciled} (ok a) (ok b) → b.effects ≡ a.effects
effects_of_ok a b h = let same : b ≡ a = cc in ap (λ (x : Reconciled). x.effects) same

-- The only patch among the effects is the last.
In-last :
    (effects : List Effect) (o o' : PatchObject) (p p' : ApplyPatch)
    (options options' : PatchOptions)
    → IsQuiet effects
    → In (Effect.sent o p options) (effects ++ Effect.sent o' p' options' ∷ [])
    → (o ≡ o') × (p ≡ p') × (options ≡ options')
In-last effects o o' p p' options options' quiet h =
    elim ((In-append (Effect.sent o p options) effects (Effect.sent o' p' options' ∷ [])).0 h) [
      | inl m ↦ absurd (quiet o p options m)
      | inr (inl e) ↦ (cc, cc, cc)
      | inr (inr m) ↦ absurd m
    ]

module _ {S : Type 0} (client : Client S)
    (generate : NamespacedName → S → Outcome (PatchObject × ApplyPatch)) where
  finish-effects :
      (r : StatusPatch S) (effects : List Effect) (m : Outcome (Unit {0})) (done : Reconciled)
      → finish client generate r effects m ≡ ok done
      → done.effects ≡ effects
  unfolding finish
  finish-effects r effects (ok _) done h = effects_of_ok _ done h
  finish-effects r effects (err e) done h = effects_of_ok _ done h
  finish-effects r effects panic done h = cc

  -- Where a patch that is sent comes from: the status, and the object and the bytes made of it.
  pub record Source (n : NamespacedName) (o : PatchObject) (p : ApplyPatch) (options : PatchOptions)
      (status : S) : Type 0 where
    pub generated : generate n status ≡ ok (o, p)
    pub forced : options ≡ record { field_manager = "approver-policy"; force = true }

  send-Source :
      (n : NamespacedName) (r : StatusPatch S) (status : S) (done : Reconciled) (o : PatchObject)
      (p : ApplyPatch) (options : PatchOptions) (m : Outcome (PatchObject × ApplyPatch))
      → generate n status ≡ m
      → send client generate r m ≡ ok done
      → IsQuiet r.effects
      → In (Effect.sent o p options) done.effects
      → Source n o p options status
  unfolding send
  send-Source n r status done o p options (ok (o', p')) made h quiet m =
      let (same_o, same_p, same_options) = In-last r.effects o o' p p' options patch_options quiet (
        subst (In (Effect.sent o p options))
          (finish-effects r _ (client.patch o' p' patch_options) done h) m) in
      record {
        generated = made ∙ ap (λ x. ok (x, p')) (sym same_o) ∙ ap (λ x. ok (o, x)) (sym same_p);
        forced = same_options;
      }
  send-Source n r status done o p options (err e) made h quiet m =
      absurd (quiet o p options (subst (In (Effect.sent o p options)) (effects_of_ok _ done h) m))
  send-Source n r status done o p options panic made h quiet m = cc

  send_status-Source :
      (n : NamespacedName) (r : StatusPatch S) (patch : Option S) (done : Reconciled)
      (o : PatchObject) (p : ApplyPatch) (options : PatchOptions)
      → send_status client generate n r patch ≡ ok done
      → IsQuiet r.effects
      → In (Effect.sent o p options) done.effects
      → (status : S) × (patch ≡ some status) × Source n o p options status
  unfolding send_status
  send_status-Source n r none done o p options h quiet m =
      absurd (quiet o p options (subst (In (Effect.sent o p options)) (effects_of_ok _ done h) m))
  send_status-Source n r (some status) done o p options h quiet m =
      (status, refl, send-Source n r status done o p options (generate n status) refl h quiet m)

  -- A patch that a reconcile sends encodes the status that it computed, for the object of its name.
  pub reconcile_with-Source :
      (n : NamespacedName) (m : Outcome (StatusPatch S)) (done : Reconciled) (o : PatchObject)
      (p : ApplyPatch) (options : PatchOptions)
      → reconcile_with client generate n m ≡ ok done
      → ((r : StatusPatch S) → m ≡ ok r → IsQuiet r.effects)
      → In (Effect.sent o p options) done.effects
      → (r : StatusPatch S) × (status : S) × (m ≡ ok r)
        × (r.patch ≡ some status)
        × Source n o p options status
  unfolding reconcile_with
  reconcile_with-Source n m done o p options h quiet sent =
      let (r, computed, h') = >>=-eq-ok m _ h in
      let (status, patched, source) =
        send_status-Source n r r.patch done o p options h' (quiet r computed) sent in
      (r, status, computed, patched, source)
