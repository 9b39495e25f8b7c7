-- ===== src/Startup/Watches.antt =====
-- pkg/internal/controllers/certificaterequestpolicies.go: when the start-up adds the goroutine that
-- forwards names.
use cert_manager_approver_po.Common.{
  true, false, Bool-cases, if-cases, if◌then◌else◌, Option, none, some, List, [], ◌∷◌, is_nil, ◌≡◌,
  ◌≢◌, refl, ◌⊎◌, inl, inr, ◌↔◌, Outcome, ok, err, panic, Error,
}
use cert_manager_approver_po.Library.{Library}
use cert_manager_approver_po.Cluster.{Cluster}
use cert_manager_approver_po.Approver.{Reconciler}
use cert_manager_approver_po.Registry.{Registry}
use cert_manager_approver_po.Webhook.{AdmissionLibrary}
use cert_manager_approver_po.Controllers.Watch.{Watcher, Channel, select_cases, is_watched, start}
use cert_manager_approver_po.Startup.{Options, Platform, added_watcher, add_watcher_for}

is_watched-no_iff : (rs : List Reconciler) → (is_watched rs ≡ false) ↔ (select_cases rs ≡ [])
unfolding is_watched
is_watched-no_iff rs = no_cases_iff (select_cases rs)
  where
    no_cases_iff :
        (cases : List Channel) → ((if is_nil cases then false else true) ≡ false) ↔ (cases ≡ [])
    no_cases_iff [] = (λ h. refl, λ h. refl)
    no_cases_iff (c ∷ cases) = (λ h. cc, λ h. cc)

module _ (library : Library) (admission : AdmissionLibrary) (p : Platform library admission)
    (cluster : Cluster) (registry : Registry) (opts : Options) where
  -- The goroutine runs if some reconciler has a channel, and it could be added.
  abbrev pub Watches : List Reconciler → Option Watcher → Type 0
  Watches rs none = (select_cases rs ≡ []) ⊎ ((e : Error) × (p.add_watcher (start rs) ≡ err e))
  Watches rs (some w) = (w ≡ start rs) × (select_cases rs ≢ []) × (p.add_watcher (start rs) ≡ ok tt)

  -- What the answer to adding a goroutine says of what runs.
  abbrev Added : Watcher → Outcome (Unit {0}) → Option Watcher → Type 0
  Added w m none = (e : Error) × (m ≡ err e)
  Added w m (some v) = (v ≡ w) × (m ≡ ok tt)

  added_watcher-Added_iff :
      (w : Watcher) (m : Outcome (Unit {0})) (o : Option Watcher)
      → (added_watcher library admission p cluster registry opts w m ≡ ok o) ↔ Added w m o
  unfolding added_watcher
  added_watcher-Added_iff w (ok _) none = (λ h. cc, λ (e, h). cc)
  added_watcher-Added_iff w (ok _) (some v) = (λ h. (cc, refl), λ (same, h). cc)
  added_watcher-Added_iff w (err e) none = (λ h. (e, refl), λ (_, h). refl)
  added_watcher-Added_iff w (err e) (some v) = (λ h. cc, λ (same, h). cc)
  added_watcher-Added_iff w panic none = (λ h. cc, λ (e, h). cc)
  added_watcher-Added_iff w panic (some v) = (λ h. cc, λ (same, h). cc)

  Added-Watches :
      (rs : List Reconciler) (o : Option Watcher)
      → is_watched rs ≡ true
      → Added (start rs) (p.add_watcher (start rs)) o
      → Watches rs o
  Added-Watches rs none h added = inr added
  Added-Watches rs (some w) h (same, added) =
      (same, λ e. let no = (is_watched-no_iff rs).1 e in cc, added)

  none-Watches :
      (rs : List Reconciler) (o : Option Watcher)
      → is_watched rs ≡ false
      → ok none ≡ ok o
      → Watches rs o
  none-Watches rs none h same = inl ((is_watched-no_iff rs).0 h)
  none-Watches rs (some w) h same = cc

  pub Watches-watcher :
      (rs : List Reconciler) (o : Option Watcher)
      → add_watcher_for library admission p cluster registry opts rs ≡ ok o
      → Watches rs o
  unfolding add_watcher_for
  Watches-watcher rs o h = elim (if-cases (is_watched rs) _ _ h) [
    | inl (watched, added) ↦ Added-Watches rs o watched ((added_watcher-Added_iff _ _ o).0 added)
    | inr (unwatched, same) ↦ none-Watches rs o unwatched same
  ]

  pub watcher-Watches :
      (rs : List Reconciler) (o : Option Watcher)
      → Watches rs o
      → add_watcher_for library admission p cluster registry opts rs ≡ ok o
  unfolding add_watcher_for
  watcher-Watches rs none (inl h) = rw ((is_watched-no_iff rs).1 h) refl
  watcher-Watches rs none (inr failure) = elim (Bool-cases (is_watched rs)) [
    | inl watched ↦ rw watched ((added_watcher-Added_iff _ _ none).1 failure)
    | inr unwatched ↦ rw unwatched refl
  ]
  watcher-Watches rs (some w) (same, some_case, added) = elim (Bool-cases (is_watched rs)) [
    | inl watched ↦ rw watched ((added_watcher-Added_iff _ _ (some w)).1 (same, added))
    | inr unwatched ↦ absurd (some_case ((is_watched-no_iff rs).0 unwatched))
  ]
