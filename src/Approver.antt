-- ===== src/Approver.antt =====
-- pkg/approver: what an approver consists of, and what its parts answer.
use cert_manager_approver_po.Common.{String, Bool, false, Option, ℤ, pos, Outcome}
use cert_manager_approver_po.Policy.{CertificateRequestPolicy}
use cert_manager_approver_po.Request.{CertificateRequest}
use cert_manager_approver_po.Field.{ErrorList}

pub data EvaluationResult : Type 0 where
  denied not_denied : EvaluationResult

pub record EvaluationResponse : Type 0 where
  pub result : EvaluationResult
  pub message : String

pub record Evaluator : Type 0 where
  pub evaluate : CertificateRequestPolicy → CertificateRequest → Outcome EvaluationResponse

pub record WebhookValidationResponse : Type 0 where
  pub allowed : Bool
  pub errors : ErrorList

pub record Webhook : Type 0 where
  pub validate : CertificateRequestPolicy → Outcome WebhookValidationResponse

-- `ctrl.Result`; the delay is in nanoseconds.
pub record ReconcileResult : Type 0 where
  pub requeue : Bool
  pub requeue_after : ℤ

-- `ctrl.Result{}`
abbrev pub no_result : ReconcileResult
no_result = record { requeue = false; requeue_after = pos 0 }

pub record ReconcilerReadyResponse : Type 0 where
  pub ready : Bool
  pub errors : ErrorList
  pub result : ReconcileResult

-- `enqueue_chan` is the channel that `EnqueueChan` returns, by a name, nil as `none`.
pub record Reconciler : Type 0 where
  pub ready : CertificateRequestPolicy → Outcome ReconcilerReadyResponse
  pub enqueue_chan : Option String

-- `Interface`, less the registration of flags. `prepare` is what the call of `Prepare` at start-up ends
-- in.
pub record Approver : Type 0 where
  pub name : String
  pub evaluator : Evaluator
  pub webhook : Webhook
  pub reconciler : Reconciler
  pub prepare : Outcome (Unit {0})
