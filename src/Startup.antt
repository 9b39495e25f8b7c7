-- ===== src/Startup.antt =====
-- pkg/internal/cmd, with what it calls of pkg/internal/webhook/webhook.go and
-- pkg/internal/controllers/controllers.go: the start of the program, up to the start of the manager of
-- controller-runtime.
pub mod Watches
pub mod Parts
pub mod Assembles
pub mod Exits
use mathlib.Core.Option
use cert_manager_approver_po.Common.{
  ℕ, String, Bool, true, Option, none, some, List, [], ◌∷◌, Outcome, ok, err, panic, Error, wrap,
  ◌>>=◌, if◌then◌else◌, ◌+++◌,
}
use cert_manager_approver_po.Library.{Library}
use cert_manager_approver_po.Cluster.{Cluster}
use cert_manager_approver_po.Approver.{Approver, Evaluator, Reconciler}
use cert_manager_approver_po.Registry.{Registry, evaluators, webhooks, reconcilers}
use cert_manager_approver_po.Manager.Review.{Manager, new}
use cert_manager_approver_po.Webhook.{AdmissionLibrary, Validator, new_validator}
use cert_manager_approver_po.Controllers.Watch.{Watcher, is_watched, start}
use cert_manager_approver_po.Tls.{
  Provider, Authority, Message, Bootstrap, created, given_up, polling, hung, aborted, poll_new,
}

pub record WebhookOptions : Type 0 where
  pub host : String
  pub port : ℕ
  pub cert_dir : String
  pub service_name : String
  pub ca_secret_namespace : String

-- What the flags fill.
pub record Options : Type 0 where
  pub log_level : String
  pub leader_election_namespace : String
  pub metrics_address : String
  pub readyz_address : String
  pub webhook : WebhookOptions

-- `addAppFlags` and `addWebhookFlags`: the values of the flags that are not given.
abbrev pub default_options : Options
default_options = record {
  log_level = "1";
  leader_election_namespace = "";
  metrics_address = ":9402";
  readyz_address = ":6060";
  webhook = record {
    host = "0.0.0.0";
    port = 6443;
    cert_dir = "/tmp";
    service_name = "cert-manager-approver-policy";
    ca_secret_namespace = "cert-manager";
  };
}

-- `ctrl.Options`, less the scheme and the logger.
pub record ManagerOptions : Type 0 where
  pub leader_election : Bool
  pub leader_election_id : String
  pub leader_election_release_on_cancel : Bool
  pub leader_election_resource_lock : String
  pub leader_election_namespace : String
  pub readiness_endpoint_name : String
  pub health_probe_bind_address : String
  pub metrics_bind_address : String
  pub port : ℕ
  pub host : String
  pub cert_dir : String

unfoldable pub manager_options : Options → ManagerOptions
manager_options opts = record {
  leader_election = true;
  leader_election_id = "policy.cert-manager.io";
  leader_election_release_on_cancel = true;
  leader_election_resource_lock = "leases";
  leader_election_namespace = opts.leader_election_namespace;
  readiness_endpoint_name = "/readyz";
  health_probe_bind_address = opts.readyz_address;
  metrics_bind_address = opts.metrics_address;
  port = opts.webhook.port;
  host = opts.webhook.host;
  cert_dir = opts.webhook.cert_dir;
}

-- What cobra makes of the arguments of the process: a request for help, which it answers, an error in
-- them, or flags to run the command with.
pub data CommandLine : Type 0 where
  asks_help flags : CommandLine
  refused : Error → CommandLine

-- A call whose error is not looked at.
unfoldable pub ignored : Outcome (Unit {0}) → Outcome (Unit {0})
ignored (ok _) = ok tt
ignored (err e) = ok tt
ignored panic = panic

module _ (library : Library) (admission : AdmissionLibrary) where
  -- What the manager of controller-runtime has been given; `none` where nothing has.
  pub record Setup : Type 1 where
    pub tls : Option Provider
    pub validator : Option (Validator admission)
    pub request_manager : Option Manager
    pub policy_reconcilers : Option (List Reconciler)
    pub watcher : Option Watcher

  abbrev pub empty_setup : Setup
  empty_setup = record {
    tls = none;
    validator = none;
    request_manager = none;
    policy_reconcilers = none;
    watcher = none;
  }

  -- What other code answers: the client configuration, the calls of controller-runtime, and all that
  -- the bootstrap of the certificate meets.
  pub record Platform : Type 1 where
    pub command_line : CommandLine
    pub rest_config : Outcome (Unit {0})
    pub new_manager : ManagerOptions → Outcome (Unit {0})
    -- the calls of the polling, and whether the context is cancelled after them
    pub calls : List (Message × Authority)
    pub cancelled : Bool
    pub found : Provider
    pub is_wait_timeout : Error → Bool
    pub error_text : Error → String
    -- `Manager.Add` of the TLS provider, and of the watcher
    pub add_tls : Provider → Outcome (Unit {0})
    pub add_watcher : Watcher → Outcome (Unit {0})
    pub add_readyz_check : Outcome (Unit {0})
    -- `Complete` of the two controllers
    pub complete_requests : Manager → Outcome (Unit {0})
    pub complete_policies : List Reconciler → Outcome (Unit {0})
    pub start_manager : Setup → Outcome (Unit {0})

  -- `tls.New` as a call; `none` is one that has not returned.
  unfoldable pub bootstrapped : Bootstrap → Option (Outcome Provider)
  bootstrapped (created t) = some (ok t)
  bootstrapped (given_up e) = some (err e)
  bootstrapped polling = none
  bootstrapped hung = none
  bootstrapped aborted = some panic

  module _ (p : Platform) (cluster : Cluster) (registry : Registry) (opts : Options) where
    -- `Register`, from what `tls.New` returned.
    unfoldable pub register : Outcome Provider → Setup → Outcome Setup
    register m s = do
      t ← wrap "failed to run webhook tls bootstrap process" m
      added ← wrap "failed to add webhook tls manager as a runnable" (p.add_tls t)
      checked ← ignored p.add_readyz_check
      ok (record s {
        tls = some t;
        validator = some (new_validator admission registry (webhooks registry));
      })

    -- The loop that prepares the approvers.
    unfoldable pub prepare_all : List Approver → Outcome (Unit {0})
    prepare_all [] = ok tt
    prepare_all (approver ∷ approvers) = do
      prepared ←
          wrap ("failed to prepare approver " +++ library.quote approver.name) approver.prepare
      prepare_all approvers

    -- `addCertificateRequestController`
    unfoldable pub add_request_controller : List Evaluator → Setup → Outcome Setup
    add_request_controller es s = do
      completed ← p.complete_requests (new cluster es)
      ok (record s { request_manager = some (new cluster es) })

    -- `Manager.Add` of the goroutine, whose error is not looked at.
    unfoldable pub added_watcher : Watcher → Outcome (Unit {0}) → Outcome (Option Watcher)
    added_watcher w (ok _) = ok (some w)
    added_watcher w (err e) = ok none
    added_watcher w panic = panic

    unfoldable pub add_watcher_for : List Reconciler → Outcome (Option Watcher)
    add_watcher_for rs =
        if is_watched rs then added_watcher (start rs) (p.add_watcher (start rs)) else ok none

    -- `addCertificateRequestPolicyController`
    unfoldable pub add_policy_controller : List Reconciler → Setup → Outcome Setup
    add_policy_controller rs s = do
      watcher ← add_watcher_for rs
      completed ← p.complete_policies rs
      ok (record s { policy_reconcilers = some rs; watcher = watcher })

    -- `AddControllers`
    unfoldable pub add_controllers : Setup → Outcome Setup
    add_controllers s = do
      with_requests ←
          wrap "failed to add certificaterequest controller"
            (add_request_controller (evaluators registry) s)
      wrap "failed to add certificaterequestpolicy controller"
          (add_policy_controller (reconcilers registry) with_requests)

    -- What follows the bootstrap of the certificate, up to the start of the manager.
    unfoldable pub assemble_with : Outcome Provider → Outcome Setup
    assemble_with m = do
      registered ← wrap "failed to register webhook" (register m empty_setup)
      prepared ← prepare_all registry.approvers
      wrap "failed to add controllers" (add_controllers registered)

    -- `tls.New`, with the options that `Register` gives it.
    unfoldable pub bootstrap : Bootstrap
    bootstrap =
        poll_new p.is_wait_timeout opts.webhook.service_name opts.webhook.ca_secret_namespace
          p.cancelled p.calls p.found

    unfoldable pub assemble_after : Outcome (Unit {0}) → Option (Outcome Setup)
    assemble_after (ok _) = Option.map assemble_with (bootstrapped bootstrap)
    assemble_after (err e) = some (err e)
    assemble_after panic = some panic

    -- `RunE`, up to the start of the manager.
    unfoldable pub assemble : Option (Outcome Setup)
    assemble =
        assemble_after
          (wrap "unable to create controller manager" (p.new_manager (manager_options opts)))

    -- `Complete`
    unfoldable pub complete : Outcome (Unit {0}) → Outcome (Unit {0})
    complete (ok _) = ok tt
    complete (err e) =
        err (Error.message ("failed to build kubernetes rest config: " +++ p.error_text e))
    complete panic = panic

    -- `RunE`
    unfoldable pub run_e : Option (Outcome (Unit {0}))
    run_e = Option.map (λ m. m >>= p.start_manager) assemble

    unfoldable pub run_after : Outcome (Unit {0}) → Option (Outcome (Unit {0}))
    run_after (ok _) = run_e
    run_after (err e) = some (err e)
    run_after panic = some panic

    -- `cmd.Execute`: cobra's answer to the arguments, or `PreRunE` and `RunE`.
    unfoldable pub execute : CommandLine → Option (Outcome (Unit {0}))
    execute asks_help = some (ok tt)
    execute (refused e) = some (err e)
    execute flags = run_after (complete p.rest_config)

    unfoldable pub run_command : Option (Outcome (Unit {0}))
    run_command = execute p.command_line

-- `ExecutePolicyApprover` and the process around it: the exit status, which Go sets to 2 in a panic.
unfoldable pub exit_status : Option (Outcome (Unit {0})) → Option ℕ
exit_status none = none
exit_status (some (ok _)) = some 0
exit_status (some (err e)) = some 1
exit_status (some panic) = some 2
