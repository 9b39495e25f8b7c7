-- ===== src/Allowed/Interface.antt =====
-- pkg/internal/approver/allowed/allowed.go: the approver named "allowed".
use cert_manager_approver_po.Common.{true, none, [], ok}
use cert_manager_approver_po.Approver.{Approver, no_result}
use cert_manager_approver_po.Library.{Library}
use cert_manager_approver_po.Allowed.Evaluate.{evaluate}
use cert_manager_approver_po.Allowed.Validate.{validate}

-- `Approver`, with `Name`, `Prepare`, `Ready` and `EnqueueChan`.
abbrev pub allowed_approver : Library → Approver
allowed_approver library = record {
  name = "allowed";
  evaluator = record { evaluate = evaluate library };
  webhook = record { validate = validate };
  reconciler = record {
    ready = λ policy. ok (record { ready = true; errors = []; result = no_result });
    enqueue_chan = none;
  };
  prepare = ok tt;
}
