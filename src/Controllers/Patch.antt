-- ===== src/Controllers/Patch.antt =====
-- pkg/internal/controllers/ssa_client: the patches of a status, and how a controller sends one. The
-- calls of other code are the fields of `Client`.
pub mod Sends
use cert_manager_approver_po.Common.{
  ℕ, String, Bool, true, false, Option, none, some, List, [], ◌∷◌, ◌++◌, Outcome, ok, err, panic,
  Error, ◌>>=◌,
}
use cert_manager_approver_po.Approver.{ReconcileResult, no_result}

-- `types.NamespacedName`, which is also a `reconcile.Request`.
pub record NamespacedName : Type 0 where
  pub namespace : String
  pub name : String

-- The configuration that a patch encodes, over the type of the status.
pub record ApplyConfiguration (S : Type 0) : Type 0 where
  pub name : String
  pub namespace : String
  pub kind : String
  pub api_version : String
  pub status : S

-- The object that tells the API server what to patch: its name and namespace.
pub record PatchObject : Type 0 where
  pub namespaced_name : NamespacedName

-- `applyPatch`, whose type is always `types.ApplyPatchType`.
pub record ApplyPatch : Type 0 where
  pub patch : List ℕ

-- The options of `Status().Patch`.
pub record PatchOptions : Type 0 where
  pub field_manager : String
  pub force : Bool

abbrev pub patch_options : PatchOptions
patch_options = record { field_manager = "approver-policy"; force = true }

-- What a controller sends to the API server: an event on an object, or a patch.
pub data Effect : Type 0 where
  event : NamespacedName → String → String → String → Effect
  sent : PatchObject → ApplyPatch → PatchOptions → Effect

-- What comes of one call: the result and the error that Go returns side by side, and the effects in
-- their order.
pub record Reconciled : Type 0 where
  pub result : ReconcileResult
  pub error : Option Error
  pub effects : List Effect

-- The same before the patch is sent; `S` is the type of the status.
pub record StatusPatch (S : Type 0) : Type 0 where
  pub result : ReconcileResult
  pub patch : Option S
  pub error : Option Error
  pub effects : List Effect

pub record Client (S : Type 0) : Type 0 where
  -- `json.Marshal`
  pub marshal : ApplyConfiguration S → Outcome (List ℕ)
  -- `client.Status().Patch`
  pub patch : PatchObject → ApplyPatch → PatchOptions → Outcome (Unit {0})
  -- `apierrors.IsNotFound`
  pub is_not_found : Error → Bool
  -- `utilerrors.NewAggregate` of two errors that may be nil
  pub aggregate : Option Error → Option Error → Option Error

-- `generate_patch` is the body that the two `Generate…StatusPatch` functions share.
module _ {S : Type 0} (client : Client S) (kind api_version : String) where
  unfoldable pub generate_patch : NamespacedName → S → Outcome (PatchObject × ApplyPatch)
  generate_patch n status = do
    bytes ← client.marshal (record {
      name = n.name;
      namespace = n.namespace;
      kind = kind;
      api_version = api_version;
      status = status;
    })
    ok (record { namespaced_name = n }, record { patch = bytes })

module _ {S : Type 0} (client : Client S)
    (generate : NamespacedName → S → Outcome (PatchObject × ApplyPatch)) where
  -- The end of `Reconcile` once the API server has answered the patch.
  unfoldable pub finish : StatusPatch S → List Effect → Outcome (Unit {0}) → Outcome Reconciled
  finish r effects (ok _) = ok (record { result = r.result; error = r.error; effects = effects })
  finish r effects (err e) = ok (record {
    result = no_result;
    error = client.aggregate r.error (some (Error.wrapped "failed to apply connection patch" e));
    effects = effects;
  })
  finish r effects panic = panic

  -- The call of `Status().Patch`, where the patch could be generated.
  unfoldable pub send : StatusPatch S → Outcome (PatchObject × ApplyPatch) → Outcome Reconciled
  send r (ok (object, patch)) =
      finish r (r.effects ++ sent object patch patch_options ∷ [])
        (client.patch object patch patch_options)
  send r (err e) = ok (record {
    result = no_result;
    error = client.aggregate r.error (some (Error.wrapped "failed to generate connection patch" e));
    effects = r.effects;
  })
  send r panic = panic

  -- `if patch != nil`
  unfoldable pub send_status : NamespacedName → StatusPatch S → Option S → Outcome Reconciled
  send_status n r none = ok (record { result = r.result; error = r.error; effects = r.effects })
  send_status n r (some status) = send r (generate n status)

  -- `Reconcile`, from what `reconcileStatusPatch` returns.
  unfoldable pub reconcile_with : NamespacedName → Outcome (StatusPatch S) → Outcome Reconciled
  reconcile_with n m = do r ← m; send_status n r r.patch
