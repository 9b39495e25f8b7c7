-- ===== src/Constraints/Interface.antt =====
-- pkg/internal/approver/constraints/constraints.go: the approver named "constraints".
use cert_manager_approver_po.Common.{true, none, [], ok}
use cert_manager_approver_po.Approver.{Approver, no_result}
use cert_manager_approver_po.Library.{Library}
use cert_manager_approver_po.Constraints.Evaluate.{evaluate}
use cert_manager_approver_po.Constraints.Validate.{validate}

-- `Approver`, with `Name`, `Prepare`, `Ready` and `EnqueueChan`.
abbrev pub constraints_approver : Library → Approver
constraints_approver library = record {
  name = "constraints";
  evaluator = record { evaluate = evaluate library };
  webhook = record { validate = validate library };
  reconciler = record {
    ready = λ policy. ok (record { ready = true; errors = []; result = no_result });
    enqueue_chan = none;
  };
  prepare = ok tt;
}
