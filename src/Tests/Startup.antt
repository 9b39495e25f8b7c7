-- ===== src/Tests/Startup.antt =====
-- The start of the program, pkg/internal/cmd/cmd.go, at small inputs.
use cert_manager_approver_po.Common.{
  true, ◌≡◌, ◌≢◌, refl, ◌↔◌, ℤ, ◌+ℤ◌, ◌-ℤ◌, ◌+++◌, none, some, [], ◌∷◌, ok, err, Error,
}
use cert_manager_approver_po.Registry.{Registry, evaluators, webhooks, reconcilers}
use cert_manager_approver_po.Manager.Review.{new}
use cert_manager_approver_po.Webhook.{new_validator}
use cert_manager_approver_po.Controllers.Watch.{select_cases, is_watched}
use cert_manager_approver_po.Allowed.Interface.{allowed_approver}
use cert_manager_approver_po.Tls.{
  time_sub, divide_by_minus_three, renew_moment, send_moment, write_key, write_certificate,
  encode_both, write_both, update_certificate, signed_pair, update_with, regenerate_certificate,
  nothing, after_regenerate, attempt, after_polling, after_call, poll_new,
}
use cert_manager_approver_po.Startup.{
  default_options, manager_options, Setup, Platform, bootstrapped, register, prepare_all,
  add_request_controller, add_watcher_for, add_policy_controller, add_controllers, assemble_with,
  bootstrap, assemble_after, assemble, complete, run_e, run_after, execute, run_command,
  exit_status, flags, ignored,
}
use cert_manager_approver_po.Startup.Parts.{IsAssembled}
use cert_manager_approver_po.Startup.Assembles.{assemble-IsAssembled_iff}
use cert_manager_approver_po.Startup.Exits.{Succeeds, exit_status-IsAssembled_iff}
use cert_manager_approver_po.Tests.Fixtures.{demo, demo_cluster}
use cert_manager_approver_po.Tests.Webhook.{admission}
use cert_manager_approver_po.Tests.Registry.{built}
use cert_manager_approver_po.Tests.Tls.{signer, full_disk, found, ready, never}

-- The first write of the key fails, and the second call of the condition succeeds.
abbrev platform : Platform demo admission
platform = record {
  command_line = flags;
  rest_config = ok tt;
  new_manager = λ opts. ok tt;
  calls = (nothing, full_disk) ∷ (nothing, signer) ∷ [];
  cancelled = true;
  found = found;
  is_wait_timeout = never;
  error_text = λ e. "refused";
  add_tls = λ t. ok tt;
  add_watcher = λ w. ok tt;
  add_readyz_check = err (Error.reported "exists");
  complete_requests = λ m. ok tt;
  complete_policies = λ rs. ok tt;
  start_manager = λ s. ok tt;
}

abbrev setup : Setup demo admission
setup = record {
  tls = some ready;
  validator = some (new_validator admission built (webhooks built));
  request_manager = some (new demo_cluster (evaluators built));
  policy_reconcilers = some (reconcilers built);
  watcher = none;
}

assembles : assemble demo admission platform demo_cluster built default_options ≡ some (ok setup)
unfolding assemble assemble_after bootstrapped bootstrap assemble_with register ignored prepare_all
    add_controllers add_request_controller add_policy_controller add_watcher_for is_watched
    select_cases reconcilers poll_new after_call after_polling attempt after_regenerate
    regenerate_certificate update_with signed_pair update_certificate write_both encode_both
    write_certificate write_key send_moment renew_moment time_sub divide_by_minus_three ◌-ℤ◌ ◌+ℤ◌
assembles = refl

assemble-IsAssembled_iff_example :
    (platform.cancelled ≡ true
      → assemble demo admission platform demo_cluster built default_options ≢ none)
    × ((assemble demo admission platform demo_cluster built default_options ≡ some (ok setup)) ↔ (
        (a : IsAssembled demo admission platform demo_cluster built default_options setup)
        × ((moment : ℤ) × (a.provider.next_renew ≡ some moment))))
assemble-IsAssembled_iff_example =
    assemble-IsAssembled_iff demo admission platform demo_cluster built default_options setup refl

-- The whole command returns what the manager does.
runs : run_command demo admission platform demo_cluster built default_options ≡ some (ok tt)
unfolding run_command execute run_after complete run_e
runs = rw assembles refl

-- An approver that cannot be prepared ends the start-up.
abbrev unprepared : Registry
unprepared = record {
  approvers =
      record (allowed_approver demo) { name = "files"; prepare = err (Error.reported "no flag") }
      ∷ [];
}

stops :
    prepare_all demo admission platform demo_cluster unprepared default_options unprepared.approvers
    ≡ err (
        Error.wrapped
          ("failed to prepare approver " +++ demo.quote "files")
          (Error.reported "no flag"))
unfolding prepare_all
stops = refl

-- The defaults reach the manager of controller-runtime.
default_port : (manager_options default_options).port ≡ 6443
unfolding manager_options
default_port = refl

exit_status-IsAssembled_iff_example :
    (exit_status (run_command demo admission platform demo_cluster built default_options) ≡ some 0)
    ↔ Succeeds demo admission platform demo_cluster built default_options platform.command_line
exit_status-IsAssembled_iff_example =
    exit_status-IsAssembled_iff demo admission platform demo_cluster built default_options

exits_well :
    exit_status (run_command demo admission platform demo_cluster built default_options) ≡ some 0
unfolding exit_status
exits_well = rw runs refl
