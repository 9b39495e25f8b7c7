-- ===== src/Controllers/Policies/Requeue.antt =====
-- pkg/internal/controllers/certificaterequestpolicies.go: the requeue options that the loop over the
-- reconcilers arrives at.
use mathlib.Core.Bool.{false≢true}
use mathlib.Core.Path.{subst}
use cert_manager_approver_po.Common.{
  map, ◌≡◌, refl, sym, ◌∙◌, ◌↔◌, ◌⊎◌, inl, inr, String, ℤ, pos, ◌≤ℤ◌, ◌<ℤ◌, lt_ℤ, lt_ℤ_iff, Bool,
  true, false, not, ◌||◌, Bool-cases, List, [], ◌∷◌, ok, >>=-eq-ok, wrap, Any, All, if◌then◌else◌,
  arith,
}
use cert_manager_approver_po.Policy.{CertificateRequestPolicy}
use cert_manager_approver_po.Approver.{
  ReconcileResult, no_result, ReconcilerReadyResponse, Reconciler,
}
use cert_manager_approver_po.Predicate.Decides.{wrap-eq-ok_iff}
use cert_manager_approver_po.Controllers.Policies.{
  wants_requeue, merge_result, Readiness, add_response, check_reconcilers, initial,
}

-- A result asks for a requeue by its flag or by a positive delay.
abbrev pub Wants : ReconcileResult → Type 0
Wants s = (s.requeue ≡ true) ⊎ (pos 0 <ℤ s.requeue_after)

wants_requeue-Wants_iff : (s : ReconcileResult) → (wants_requeue s ≡ true) ↔ Wants s
wants_requeue-Wants_iff s =
    let (to, from) = lt_ℤ_iff (pos 0) s.requeue_after in
    elim (Bool-cases s.requeue) [
      | inl set ↦ rw set (λ _. inl refl, λ _. refl)
      | inr unset ↦ rw unset (λ h. inr (to h), λ h. elim h [ inl e ↦ cc | inr more ↦ from more ])
    ]

-- What a list of results comes to, from the options `from`: whether a requeue is wanted, and a delay
-- that is one of those wanted and that none undercuts.
pub record MergesFrom (from : ReconcileResult) (results : List ReconcileResult)
    (r : ReconcileResult) : Type 0 where
  pub wanted : (r.requeue ≡ true) ↔ ((from.requeue ≡ true) ⊎ Any (λ s. Wants s) results)
  pub attained :
      r.requeue ≡ true
      → ((from.requeue ≡ true) × (from.requeue_after ≡ r.requeue_after))
        ⊎ Any (λ s. (Wants s) × (s.requeue_after ≡ r.requeue_after)) results
  pub least_from : from.requeue ≡ true → r.requeue_after ≤ℤ from.requeue_after
  pub least : All (λ s. Wants s → r.requeue_after ≤ℤ s.requeue_after) results

-- The answers of the reconcilers, in order.
abbrev pub Answers :
    CertificateRequestPolicy → List Reconciler → List ReconcilerReadyResponse → Type 0
Answers policy [] [] = Unit
Answers policy [] (r ∷ responses) = ⊥
Answers policy (c ∷ reconcilers) [] = ⊥
Answers policy (c ∷ reconcilers) (r ∷ responses) =
    (c.ready policy ≡ ok r) × Answers policy reconcilers responses

merge_skip : (r s : ReconcileResult) → wants_requeue s ≡ false → merge_result r s ≡ r
unfolding merge_result
merge_skip r s h = rw h refl

merge_requeue : (r s : ReconcileResult) → wants_requeue s ≡ true → (merge_result r s).requeue ≡ true
unfolding merge_result
merge_requeue r s h = rw h refl

-- The delay after one more result that wants a requeue.
merge_after :
    (r s : ReconcileResult)
    → wants_requeue s ≡ true
    → (merge_result r s).requeue_after ≡ (
        if not r.requeue || lt_ℤ s.requeue_after r.requeue_after
        then s.requeue_after
        else r.requeue_after)
unfolding merge_result
merge_after r s h = rw h refl

lesser :
    (set : Bool) (a b : ℤ)
    → let m = if not set || lt_ℤ a b then a else b in
      (m ≤ℤ a) × (set ≡ true → m ≤ℤ b) × ((m ≡ a) ⊎ ((set ≡ true) × (m ≡ b)))
lesser true a b = elim (Bool-cases (lt_ℤ a b)) [
  | inl less ↦ rw less (omega arith, λ _. ground arith, inl refl)
  | inr more ↦ rw more (ground arith, λ _. omega arith, inr (refl, refl))
]
lesser false a b = (omega arith, λ h. cc, inl refl)

-- The options after all results.
abbrev pub merge_all : ReconcileResult → List ReconcileResult → ReconcileResult
merge_all from [] = from
merge_all from (s ∷ results) = merge_all (merge_result from s) results

≤ℤ_trans : (a b c : ℤ) → a ≤ℤ b → b ≤ℤ c → a ≤ℤ c
≤ℤ_trans a b c h k = omega arith

-- A result that wants no requeue changes nothing.
MergesFrom-skip :
    (from s t : ReconcileResult) (results : List ReconcileResult)
    → ¬ Wants s
    → MergesFrom from results t
    → MergesFrom from (s ∷ results) t
MergesFrom-skip from s t results h m = record {
  wanted = (
    λ r. elim (m.wanted.0 r) [ inl k ↦ inl k | inr k ↦ inr (inr k) ],
    λ k.
        m.wanted.1
          (elim k [ inl f ↦ inl f | inr (inl w) ↦ absurd (h w) | inr (inr later) ↦ inr later ]),
  );
  attained = λ r. elim (m.attained r) [ inl k ↦ inl k | inr k ↦ inr (inr k) ];
  least_from = m.least_from;
  least = ((λ w. absurd (h w)), m.least);
}

MergesFrom-take :
    (from s t : ReconcileResult) (results : List ReconcileResult)
    → Wants s
    → MergesFrom (merge_result from s) results t
    → MergesFrom from (s ∷ results) t
MergesFrom-take from s t results h m =
    let (at_most_s, at_most_from, chosen) =
      lesser from.requeue s.requeue_after from.requeue_after in
    let asks = (wants_requeue-Wants_iff s).1 h in
    let after = merge_after from s asks in
    let below = m.least_from (merge_requeue from s asks) in
    record {
      wanted = (λ _. inr (inl h), λ _. m.wanted.1 (inl (merge_requeue from s asks)));
      attained = λ r. elim (m.attained r) [
        | inl (_, e) ↦ elim chosen [
          | inl is_s ↦ inr (inl (h, sym is_s ∙ sym after ∙ e))
          | inr (set, is_from) ↦ inl (set, sym is_from ∙ sym after ∙ e)
        ]
        | inr later ↦ inr (inr later)
      ];
      least_from =
          λ set. ≤ℤ_trans t.requeue_after _ from.requeue_after below (rw after (at_most_from set));
      least =
          ((λ _. ≤ℤ_trans t.requeue_after _ s.requeue_after below (rw after at_most_s)), m.least);
    }

merge_all-MergesFrom :
    (from : ReconcileResult) (results : List ReconcileResult)
    → MergesFrom from results (merge_all from results)
merge_all-MergesFrom from [] = record {
  wanted = (λ h. inl h, λ h. elim h [ inl k ↦ k | inr k ↦ absurd k ]);
  attained = λ h. inl (h, refl);
  least_from = λ h. omega arith;
  least = tt;
}
merge_all-MergesFrom from (s ∷ results) = elim (Bool-cases (wants_requeue s)) [
  | inl wants ↦
      MergesFrom-take from s _ results ((wants_requeue-Wants_iff s).0 wants)
        (merge_all-MergesFrom (merge_result from s) results)
  | inr not_wanted ↦
      subst (λ r. MergesFrom from (s ∷ results) (merge_all r results))
        (sym (merge_skip from s not_wanted))
        (MergesFrom-skip from s _ results
          (λ w. absurd (false≢true (sym not_wanted ∙ (wants_requeue-Wants_iff s).1 w)))
          (merge_all-MergesFrom from results))
]

abbrev pub results_of : List ReconcilerReadyResponse → List ReconcileResult
results_of responses = map (λ (r : ReconcilerReadyResponse). r.result) responses

-- What the loop returns, response by response.
abbrev pub collect : Readiness → List ReconcilerReadyResponse → Readiness
collect r [] = r
collect r (response ∷ responses) = collect (add_response r response) responses

-- The loop collects the answers.
pub check_reconcilers-collect :
    (failure : String) (reconcilers : List Reconciler) (policy : CertificateRequestPolicy)
    (r : Readiness) (responses : List ReconcilerReadyResponse)
    → Answers policy reconcilers responses
    → check_reconcilers failure reconcilers policy r ≡ ok (collect r responses)
unfolding check_reconcilers
check_reconcilers-collect failure [] policy r [] h = refl
check_reconcilers-collect failure [] policy r (s ∷ responses) h = absurd h
check_reconcilers-collect failure (c ∷ reconcilers) policy r [] h = absurd h
check_reconcilers-collect failure (c ∷ reconcilers) policy r (s ∷ responses) (answered, h) =
    rw answered (check_reconcilers-collect failure reconcilers policy _ responses h)

-- A loop that returns has had an answer from every reconciler.
pub check_reconcilers-Answers :
    (failure : String) (reconcilers : List Reconciler) (policy : CertificateRequestPolicy)
    (r s : Readiness)
    → check_reconcilers failure reconcilers policy r ≡ ok s
    → (responses : List ReconcilerReadyResponse) × Answers policy reconcilers responses
      × (s ≡ collect r responses)
unfolding check_reconcilers
check_reconcilers-Answers failure [] policy r s h = ([], tt, cc)
check_reconcilers-Answers failure (c ∷ reconcilers) policy r s h =
    let (response, answered, h') = >>=-eq-ok (wrap failure (c.ready policy)) _ h in
    let (responses, answers, result) =
      check_reconcilers-Answers failure reconcilers policy _ s h' in
    (
      response ∷ responses,
      ((wrap-eq-ok_iff failure (c.ready policy) response).0 answered, answers),
      result,
    )

collect-result :
    (responses : List ReconcilerReadyResponse) (r : Readiness)
    → (collect r responses).result ≡ merge_all r.result (results_of responses)
collect-result [] r = refl
collect-result (s ∷ responses) r = collect-result responses (add_response r s)

-- Where every reconciler answers, the requeue options that come of the loop ask for a requeue exactly
-- if some answer does, by its flag or by a positive delay, and the delay is then the least of those of
-- the answers that do.
pub check_reconcilers-MergesFrom :
    (failure : String) (reconcilers : List Reconciler) (policy : CertificateRequestPolicy)
    (responses : List ReconcilerReadyResponse)
    → Answers policy reconcilers responses
    → (r : Readiness) × (check_reconcilers failure reconcilers policy initial ≡ ok r)
      × MergesFrom no_result (results_of responses) r.result
check_reconcilers-MergesFrom failure reconcilers policy responses answers = (
  collect initial responses,
  check_reconcilers-collect failure reconcilers policy initial responses answers,
  subst (MergesFrom no_result (results_of responses)) (sym (collect-result responses initial))
      (merge_all-MergesFrom no_result (results_of responses)),
)
