-- ===== src/Controllers/Policies/Decides.antt =====
-- pkg/internal/controllers/certificaterequestpolicies.go: the status that a reconcile writes.
use mathlib.Core.Bool.{false≢true}
use mathlib.Core.Path.{subst}
use cert_manager_approver_po.Common.{
  ◌≡◌, refl, sym, ◌∙◌, ap, ◌↔◌, inl, inr, String, Bool, true, false, not, Bool-cases, Option, none,
  some, List, [], ◌∷◌, ok, All, Any, if◌then◌else◌,
}
use cert_manager_approver_po.Policy.{Condition, Status, CertificateRequestPolicy, condition_ready}
use cert_manager_approver_po.Approver.{ReconcilerReadyResponse}
use cert_manager_approver_po.Library.{Library}
use cert_manager_approver_po.Predicate.Selects.{IsReady}
use cert_manager_approver_po.Controllers.Patch.{NamespacedName, StatusPatch}
use cert_manager_approver_po.Controllers.Policies.{
  Readiness, initial, add_response, put_condition, set_condition, PolicyController,
  evaluation_failure, new_condition, fresh_status, ready_patch, not_ready_patch, decide_ready,
  reconcile_found, reconcile_policy_status,
}
use cert_manager_approver_po.Controllers.Policies.Requeue.{
  Answers, collect, check_reconcilers-collect,
}

-- Every answer is ready.
abbrev pub AllReady : List ReconcilerReadyResponse → Type 0
AllReady responses = All (λ r. r.ready ≡ true) responses

both_ready :
    (answer so_far : Bool)
    → ((if not answer then false else so_far) ≡ true) ↔ ((so_far ≡ true) × (answer ≡ true))
both_ready true so_far = (λ h. (h, refl), λ (h, _). h)
both_ready false so_far = (λ h. cc, λ (_, h). cc)

collect-ready :
    (responses : List ReconcilerReadyResponse) (r : Readiness)
    → ((collect r responses).ready ≡ true) ↔ ((r.ready ≡ true) × AllReady responses)
collect-ready [] r = (λ h. (h, tt), λ (h, _). h)
collect-ready (s ∷ responses) r =
    let (to, from) = collect-ready responses (add_response r s) in
    let (split, joined) = both_ready s.ready r.ready in
    (
      λ h. let (k, all) = to h in let (so_far, answer) = split k in (so_far, (answer, all)),
      λ (so_far, (answer, all)). from (joined (so_far, answer), all),
    )

module _ (library : Library) (c : PolicyController) (n : NamespacedName) where
  -- What a new status of the policy says of the answers of the reconcilers.
  pub record Reports (policy : CertificateRequestPolicy) (responses : List ReconcilerReadyResponse)
      (status : Status) : Type 0 where
    pub condition : Condition
    pub only : status.conditions ≡ condition ∷ []
    pub type : condition.type ≡ condition_ready
    pub generation : condition.observed_generation ≡ policy.generation
    pub time : condition.last_transition_time ≡ some c.now
    pub ready_iff : (condition.status ≡ "True") ↔ AllReady responses

  fresh_status-Reports :
      (policy : CertificateRequestPolicy) (responses : List ReconcilerReadyResponse)
      (status reason message : String)
      → (status ≡ "True") ↔ AllReady responses
      → Reports policy responses
          (fresh_status library c n policy (new_condition library c n status reason message))
  unfolding set_condition put_condition
  fresh_status-Reports policy responses status reason message h = record {
    condition = _;
    only = refl;
    type = refl;
    generation = refl;
    time = refl;
    ready_iff = h;
  }

  -- A status with the condition of the controller makes the policy one that reviews consider exactly
  -- if every reconciler is ready.
  Reports-IsReady :
      (policy : CertificateRequestPolicy) (responses : List ReconcilerReadyResponse)
      (status : Status)
      → Reports policy responses status
      → IsReady (record policy { status = status }) ↔ AllReady responses
  Reports-IsReady policy responses status r =
      subst
        (λ conditions.
          Any (λ x. (x.type ≡ condition_ready) × (x.status ≡ "True")) conditions
          ↔ AllReady responses)
        (sym r.only)
        (
          λ h. elim h [ inl (_, s) ↦ r.ready_iff.0 s | inr none' ↦ absurd none' ],
          λ all. inl (r.type, r.ready_iff.1 all),
        )

  reports :
      (policy : CertificateRequestPolicy) (responses : List ReconcilerReadyResponse)
      (status : Status)
      → Reports policy responses status
      → (written : Status) × (◌≡◌ {A = Option Status} (some status) (some written))
        × Reports policy responses written
        × (IsReady (record policy { status = written }) ↔ AllReady responses)
  reports policy responses status r = (status, refl, r, Reports-IsReady policy responses status r)

  decide_ready-ok :
      (policy : CertificateRequestPolicy) (r : Readiness)
      → decide_ready library c n policy (ok r)
        ≡ ok (
            if not r.ready
            then not_ready_patch library c n policy r
            else ready_patch library c n policy r)
  unfolding decide_ready
  decide_ready-ok policy r = refl

  -- For a policy that is found, and reconcilers that all answer: the controller returns no error, with
  -- the requeue options of the loop, and a patch of the status. The new status has one condition, of
  -- type Ready, for the policy's generation, and with the time of the clock; its status is "True"
  -- exactly if every reconciler is ready, and the policy with that status is one that the predicate
  -- `Ready` selects exactly then.
  pub reconcile_policy_status-Reports :
      (policy : CertificateRequestPolicy) (responses : List ReconcilerReadyResponse)
      → c.get_policy n ≡ ok policy
      → Answers policy c.reconcilers responses
      → (p : StatusPatch Status) × (reconcile_policy_status library c n ≡ ok p)
        × (p.error ≡ none)
        × (p.result ≡ (collect initial responses).result)
        × ((status : Status) × (p.patch ≡ some status)
            × Reports policy responses status
            × (IsReady (record policy { status = status }) ↔ AllReady responses))
  unfolding reconcile_policy_status reconcile_found not_ready_patch ready_patch
  reconcile_policy_status-Reports policy responses found answers =
      let returned =
        check_reconcilers-collect (evaluation_failure library c n) c.reconcilers policy initial
          responses answers in
      let r = collect initial responses in
      let (to, from) = collect-ready responses initial in
      let run =
        ap (reconcile_found library c n) found
        ∙ ap (decide_ready library c n policy) returned
        ∙ decide_ready-ok policy r in
      elim (Bool-cases r.ready) [
        | inl is_ready ↦ (
          ready_patch library c n policy r,
          run ∙ rw is_ready refl,
          refl,
          refl,
          reports policy responses _ (
              fresh_status-Reports policy responses "True" "Ready" _
                (λ _. (to is_ready).1, λ _. refl)),
        )
        | inr not_ready ↦ (
          not_ready_patch library c n policy r,
          run ∙ rw not_ready refl,
          refl,
          refl,
          reports policy responses _ (
              fresh_status-Reports policy responses "False" "NotReady" _
                (λ h. cc, λ all. absurd (false≢true (sym not_ready ∙ from (refl, all))))),
        )
      ]

-- A status that two reconciles of a policy both write is written at one time of the clock: a reconcile
-- at another time always changes the status.
pub Reports-same_time :
    (library : Library) (c d : PolicyController) (n : NamespacedName)
    (policy : CertificateRequestPolicy) (responses : List ReconcilerReadyResponse) (status : Status)
    → Reports library c n policy responses status
    → Reports library d n policy responses status
    → c.now ≡ d.now
Reports-same_time library c d n policy responses status first second =
    let same : first.condition ≡ second.condition = cc in
    let times =
      sym first.time ∙ ap (λ (x : Condition). x.last_transition_time) same ∙ second.time in
    cc
