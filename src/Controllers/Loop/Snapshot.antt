-- ===== src/Controllers/Loop/Snapshot.antt =====
-- pkg/internal/controllers/certificaterequests.go: what a decision that is about to be sent rests on.
use mathlib.Core.Path.{subst}
use cert_manager_approver_po.Common.{
  Bool, true, false, if◌then◌else◌, ◌≡◌, refl, sym, ◌∙◌, Option, none, some, List, Outcome, ok, err,
  panic,
}
use cert_manager_approver_po.Policy.{CertificateRequestPolicy}
use cert_manager_approver_po.Request.{CertificateRequest}
use cert_manager_approver_po.Cluster.{Cluster}
use cert_manager_approver_po.Registry.{Registry, evaluators}
use cert_manager_approver_po.Builtin.{load_approvers}
use cert_manager_approver_po.Manager.Review.{new, review}
use cert_manager_approver_po.Manager.Decides.{review-listed_policies}
use cert_manager_approver_po.Controllers.Patch.{
  NamespacedName, PatchObject, ApplyPatch, patch_options, StatusPatch, Client,
}
use cert_manager_approver_po.Controllers.Requests.{
  RequestStatus, generate_request_patch, reconcile_request_status, enqueue_requests,
}
use cert_manager_approver_po.Controllers.Requests.Decides.{reconcile_found-Reviewed}
use cert_manager_approver_po.Controllers.Requests.Safe.{Justified, Decision-Justified}
use cert_manager_approver_po.Controllers.Parties.{Stored, lookup, Work, has_landed}
use cert_manager_approver_po.Controllers.Loop.{
  Setting, get_stored, controller, begin, requeue, patched, after_status, after_patch, apply_to,
  finish_work, after_listing, handle_change, Step, written, deleted, changed, crashed, restarted,
  arrived, told, begun, finished, Reach, start, next,
}
use cert_manager_approver_po.Controllers.Loop.Waiting.{State}

module _ (setting : Setting) where
  -- A part of a run.
  pub data Runs (u : State setting) : State setting → Type 0 where
    here : Runs u u
    on : {s v : State setting} → Runs u s → Step setting s v → Runs u v

  -- The work was begun at a moment of the run, on what was stored then.
  pub record Began (w : Work) (s : State setting) : Type 0 where
    pub moment : State setting
    pub reached : Reach setting moment
    pub since : Runs moment s
    pub cluster : Cluster
    pub seen : setting.Sees moment.world cluster
    pub read :
        w.computed
        ≡ reconcile_request_status (controller setting cluster w.client moment.stored) w.name

  later : {s v : State setting} {w : Work} → Began w s → Step setting s v → Began w v
  later b step = record {
    moment = b.moment;
    reached = b.reached;
    since = on b.since step;
    cluster = b.cluster;
    seen = b.seen;
    read = b.read;
  }

  handle_change-work :
      (listed : Outcome (List Stored)) (s : State setting)
      → (handle_change setting listed s).work ≡ s.work
  unfolding handle_change enqueue_requests after_listing
  handle_change-work (ok stored) s = refl
  handle_change-work (err e) s = refl
  handle_change-work panic s = refl

  apply_to-work :
      (o : Option Stored) (status : RequestStatus) (s : State setting)
      → (apply_to setting o status s).work ≡ s.work
  unfolding apply_to
  apply_to-work none status s = refl
  apply_to-work (some r) status s = refl

  if-work :
      (b : Bool) (s t u : State setting)
      → t.work ≡ s.work
      → u.work ≡ s.work
      → (if b then t else u).work ≡ s.work
  if-work true s t u h k = h
  if-work false s t u h k = k

  after_patch-work :
      (client : Client RequestStatus) (landed : Bool) (n : NamespacedName) (status : RequestStatus)
      (m : Outcome (PatchObject × ApplyPatch)) (s : State setting)
      → (after_patch setting client landed n status m s).work ≡ s.work
  unfolding after_patch
  after_patch-work client landed n status (ok (object, patch)) s =
      if-work (has_landed (client.patch object patch patch_options) landed) s _ s
        (apply_to-work (lookup n s.stored) status s) refl
  after_patch-work client landed n status (err e) s = refl
  after_patch-work client landed n status panic s = refl

  after_status-work :
      (client : Client RequestStatus) (landed : Bool) (n : NamespacedName)
      (o : Option RequestStatus) (s : State setting)
      → (after_status setting client landed n o s).work ≡ s.work
  unfolding after_status
  after_status-work client landed n none s = refl
  after_status-work client landed n (some status) s =
      after_patch-work client landed n status (generate_request_patch client n status) s

  patched-work :
      (client : Client RequestStatus) (landed : Bool) (n : NamespacedName)
      (m : Outcome (StatusPatch RequestStatus)) (s : State setting)
      → (patched setting client landed n m s).work ≡ s.work
  unfolding patched
  patched-work client landed n (ok r) s = after_status-work client landed n r.patch s
  patched-work client landed n (err e) s = refl
  patched-work client landed n panic s = refl

  finish_work-work :
      (w : Work) (landed : Bool) (s : State setting) → (finish_work setting w landed s).work ≡ none
  unfolding finish_work requeue
  finish_work-work w landed s =
      patched-work w.client landed w.name w.computed (record s { work = none })

  Step-Began :
      {s v : State setting}
      → Reach setting s
      → Step setting s v
      → ((w : Work) → s.work ≡ some w → Began w s)
      → (w : Work) → v.work ≡ some w
      → Began w v
  unfolding begin
  Step-Began reach (written r) inv w h = later (inv w h) (written r)
  Step-Began reach (deleted n) inv w h = later (inv w h) (deleted n)
  Step-Began reach (changed world) inv w h = later (inv w h) (changed world)
  Step-Began reach crashed inv w h = later (inv w h) crashed
  Step-Began reach (restarted stopped) inv w h = cc
  Step-Began reach (arrived r rest running e) inv w h = later (inv w h) (arrived r rest running e)
  Step-Began {s} reach (told k listed running e answer) inv w h =
      later (inv w (sym (handle_change-work listed (record s { changes = k })) ∙ h))
        (told k listed running e answer)
  Step-Began {s} reach (begun n cluster client running idle waits sees aggregate) inv w h =
      let made : record {
        name = n;
        client = client;
        computed = reconcile_request_status (controller setting cluster client s.stored) n;
      }
          ≡ w =
        cc in
      subst (λ x. Began x (begin setting n cluster client s)) made
        (record {
          moment = s;
          reached = reach;
          since = on here (begun n cluster client running idle waits sees aggregate);
          cluster = cluster;
          seen = sees;
          read = refl;
        })
  Step-Began {s} reach (finished x landed running busy) inv w h =
      let over = sym (finish_work-work x landed s) ∙ h in cc

  Reach-Began : {s : State setting} → Reach setting s → (w : Work) → s.work ≡ some w → Began w s
  Reach-Began (start world stored) w h = cc
  Reach-Began (next reach step) w h = Step-Began reach step (Reach-Began reach) w h

  get_stored-some :
      (o : Option Stored) (cr : CertificateRequest)
      → get_stored setting o ≡ ok cr
      → (r : Stored) × (o ≡ some r) × (r.request ≡ cr)
  unfolding get_stored
  get_stored-some none cr h = cc
  get_stored-some (some r) cr h = (r, refl, cc)

-- In every run of the repository's own build: a reconcile that is about to send a status has begun at a
-- moment of the same run at which the request of its name was stored, and the status is justified by the
-- policies that were seen then: it approves a request that some policy that applies to it accepts, or
-- denies one to which some policy applies and that no policy that applies accepts.
pub Reach-Justified :
    (setting : Setting) (loaded : Registry) (s : State setting) (w : Work)
    (p : StatusPatch RequestStatus) (status : RequestStatus)
    → load_approvers setting.library ≡ ok loaded
    → setting.evaluators ≡ evaluators loaded
    → Reach setting s
    → s.work ≡ some w
    → w.computed ≡ ok p
    → p.patch ≡ some status
    → (began : Began setting w s) × (policies : List CertificateRequestPolicy) × (r : Stored)
      × (began.cluster.list_policies ≡ ok policies)
      × (lookup w.name began.moment.stored ≡ some r)
      × Justified setting.library began.cluster loaded policies
          (controller setting began.cluster w.client began.moment.stored)
          r.request
          status
unfolding reconcile_request_status controller
Reach-Justified setting loaded s w p status load own reach busy computed patch =
    let b = Reach-Began setting reach w busy in
    let c = controller setting b.cluster w.client b.moment.stored in
    let (_, reviewed) =
      reconcile_found-Reviewed c w.name (get_stored setting (lookup w.name b.moment.stored)) p refl
        (sym b.read ∙ computed) in
    let x = reviewed status patch in
    let (r, found, same) = get_stored-some setting (lookup w.name b.moment.stored) x.cr x.found in
    let own_review =
      subst (λ es. review setting.library b.cluster (new b.cluster es) x.cr ≡ ok x.response) own
        x.reviewed in
    let (policies, listed) =
      review-listed_policies setting.library b.cluster (new b.cluster (evaluators loaded)) x.cr
        x.response own_review in
    (
      b,
      policies,
      r,
      listed,
      found,
      subst (λ cr. Justified setting.library b.cluster loaded policies c cr status) (sym same)
          (Decision-Justified setting.library b.cluster loaded policies c x.cr status x.response
            load listed own_review x.decision),
    )
