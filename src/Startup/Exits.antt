-- ===== src/Startup/Exits.antt =====
-- pkg/cmd/cmd.go: when the process ends well.
use mathlib.Core.Option
use cert_manager_approver_po.Common.{
  ℕ, Option, none, some, arith, ◌≡◌, refl, ap, ◌↔◌, Outcome, ok, err, panic, ◌>>=◌,
}
use cert_manager_approver_po.Library.{Library}
use cert_manager_approver_po.Cluster.{Cluster}
use cert_manager_approver_po.Registry.{Registry}
use cert_manager_approver_po.Webhook.{AdmissionLibrary}
use cert_manager_approver_po.Startup.{
  Options, Setup, Platform, assemble, CommandLine, asks_help, flags, refused, complete, run_e,
  run_after, execute, run_command, exit_status,
}
use cert_manager_approver_po.Startup.Parts.{IsAssembled}
use cert_manager_approver_po.Startup.Assembles.{assemble-IsAssembled, IsAssembled-assemble}

same_status : (m n : ℕ) → some m ≡ some n → m ≡ n
same_status m n h = cc

exit_zero_iff : (o : Option (Outcome (Unit {0}))) → (exit_status o ≡ some 0) ↔ (o ≡ some (ok tt))
unfolding exit_status
exit_zero_iff none = (λ h. cc, λ h. cc)
exit_zero_iff (some (ok _)) = (λ h. refl, λ h. refl)
exit_zero_iff (some (err e)) = (λ h. let e = same_status 1 0 h in absurd (omega arith), λ h. cc)
exit_zero_iff (some panic) = (λ h. let e = same_status 2 0 h in absurd (omega arith), λ h. cc)

module _ (library : Library) (admission : AdmissionLibrary) (p : Platform library admission)
    (cluster : Cluster) (registry : Registry) (opts : Options) where
  started-ok_iff :
      (o : Option (Outcome (Setup library admission)))
      → (Option.map (λ m. m >>= p.start_manager) o ≡ some (ok tt))
        ↔ ((s : Setup library admission) × (o ≡ some (ok s)) × (p.start_manager s ≡ ok tt))
  started-ok_iff none = (λ h. cc, λ (s, h, _). cc)
  started-ok_iff (some (ok s)) =
      (λ h. (s, refl, cc), λ (t, h, runs). let e : s ≡ t = cc in ap some (rw e runs))
  started-ok_iff (some (err e)) = (λ h. cc, λ (s, h, _). cc)
  started-ok_iff (some panic) = (λ h. cc, λ (s, h, _). cc)

  run_after-ok_iff :
      (m : Outcome (Unit {0}))
      → (run_after library admission p cluster registry opts
            (complete library admission p cluster registry opts m)
          ≡ some (ok tt))
        ↔ ((m ≡ ok tt) × (run_e library admission p cluster registry opts ≡ some (ok tt)))
  unfolding run_after complete
  run_after-ok_iff (ok _) = (λ h. (refl, h), λ (_, h). h)
  run_after-ok_iff (err e) = (λ h. cc, λ (h, _). cc)
  run_after-ok_iff panic = (λ h. cc, λ (h, _). cc)

  -- What each kind of arguments needs for an exit with status 0.
  pub data Succeeds : CommandLine → Type 1 where
    helped : Succeeds asks_help
    managed :
        (s : Setup library admission)
        → p.rest_config ≡ ok tt
        → IsAssembled library admission p cluster registry opts s
        → p.start_manager s ≡ ok tt
        → Succeeds flags

  execute-Succeeds :
      (line : CommandLine)
      → execute library admission p cluster registry opts line ≡ some (ok tt)
      → Succeeds line
  unfolding execute run_e
  execute-Succeeds asks_help h = helped
  execute-Succeeds (refused e) h = cc
  execute-Succeeds flags h =
      let (config, e) = (run_after-ok_iff p.rest_config).0 h in
      let (s, assembled, started) =
        (started-ok_iff (assemble library admission p cluster registry opts)).0 e in
      managed s config (assemble-IsAssembled library admission p cluster registry opts s assembled)
        started

  Succeeds-execute :
      {line : CommandLine}
      → Succeeds line
      → execute library admission p cluster registry opts line ≡ some (ok tt)
  unfolding execute run_e
  Succeeds-execute helped = refl
  Succeeds-execute (managed s config a started) =
      let assembled = IsAssembled-assemble library admission p cluster registry opts s a in
      (run_after-ok_iff p.rest_config).1 (
        config,
        (started-ok_iff (assemble library admission p cluster registry opts)).1
            (s, assembled, started),
      )

-- The process exits with status 0 exactly if its arguments ask for help, or they are flags to run with,
-- the client configuration is built, each call before the start of the manager of controller-runtime has
-- succeeded, but for the addition of the readiness check and of the goroutine that forwards names,
-- which may return errors, and the manager, started with what it has then been given, returns no error.
pub exit_status-IsAssembled_iff :
    (library : Library) (admission : AdmissionLibrary) (p : Platform library admission)
    (cluster : Cluster) (registry : Registry) (opts : Options)
    → (exit_status (run_command library admission p cluster registry opts) ≡ some 0)
      ↔ Succeeds library admission p cluster registry opts p.command_line
unfolding run_command
exit_status-IsAssembled_iff library admission p cluster registry opts =
    let (from_zero, to_zero) =
      exit_zero_iff (run_command library admission p cluster registry opts) in
    (
      λ h. execute-Succeeds library admission p cluster registry opts p.command_line (from_zero h),
      λ h. to_zero (Succeeds-execute library admission p cluster registry opts h),
    )
