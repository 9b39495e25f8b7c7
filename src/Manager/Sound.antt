-- ===== src/Manager/Sound.antt =====
-- pkg/internal/approver/manager/review.go: the loops of a review, and what their results say of the
-- policies and the evaluators.
use mathlib.Core.Bool.{false≢true}
use cert_manager_approver_po.Common.{
  ◌≡◌, refl, sym, ◌∙◌, ap, ◌↔◌, ◌⊎◌, inl, inr, String, Bool, true, false, ◌||◌, Bool-cases, List,
  [], ◌∷◌, Outcome, ok, >>=-eq-ok, wrap, All, Any, arith,
}
use cert_manager_approver_po.Policy.{CertificateRequestPolicy}
use cert_manager_approver_po.Request.{CertificateRequest}
use cert_manager_approver_po.Approver.{Evaluator, EvaluationResult, EvaluationResponse, not_denied}
use cert_manager_approver_po.Library.{Library}
use cert_manager_approver_po.Cluster.{Cluster}
use cert_manager_approver_po.Predicate.{ready, selector_issuer_ref, selector_namespace, rbac_bound}
use cert_manager_approver_po.Predicate.Filter.{In}
use cert_manager_approver_po.Predicate.Selects.{Applies}
use cert_manager_approver_po.Predicate.Decides.{
  In-ready, In-selector_issuer_ref, In-rbac_bound, wrap-eq-ok_iff,
}
use cert_manager_approver_po.Predicate.Namespace.{In-selector_namespace}
use cert_manager_approver_po.Manager.Review.{
  approved, denied, ReviewResponse, PolicyMessage, new, is_denied, apply_predicates, run_evaluators,
  approved_message, denied_message, review_policies,
}

-- What an evaluator answers of a policy and a request.
abbrev pub Answers :
    CertificateRequestPolicy → CertificateRequest → EvaluationResult → Evaluator → Type 0
Answers policy request result evaluator =
    (response : EvaluationResponse) × (evaluator.evaluate policy request ≡ ok response)
    × (response.result ≡ result)

-- No evaluator denies, and some evaluator denies.
abbrev pub IsPassed : List Evaluator → CertificateRequest → CertificateRequestPolicy → Type 0
IsPassed evaluators request policy = All (Answers policy request not_denied) evaluators

abbrev pub IsDenied : List Evaluator → CertificateRequest → CertificateRequestPolicy → Type 0
IsDenied evaluators request policy = Any (Answers policy request EvaluationResult.denied) evaluators

is_denied_cases :
    (result : EvaluationResult)
    → ((is_denied result ≡ true) × (result ≡ EvaluationResult.denied))
      ⊎ ((is_denied result ≡ false) × (result ≡ not_denied))
is_denied_cases EvaluationResult.denied = inl (refl, refl)
is_denied_cases not_denied = inr (refl, refl)

or-false : (a b : Bool) → (a || b) ≡ false → (a ≡ false) × (b ≡ false)
or-false a b h = ground arith

or-true_left : (a b : Bool) → (a || b) ≡ true → b ≡ false → a ≡ true
or-true_left a b h k = ground arith

-- The flag that the loop ends with.
run_evaluators_flag :
    (evaluators : List Evaluator) (policy : CertificateRequestPolicy) (request : CertificateRequest)
    (flag flag' : Bool) (messages messages' : List String)
    → run_evaluators evaluators policy request flag messages ≡ ok (flag', messages')
    → (flag' ≡ false → (flag ≡ false) × IsPassed evaluators request policy)
      × (flag' ≡ true → (flag ≡ true) ⊎ IsDenied evaluators request policy)
unfolding run_evaluators
run_evaluators_flag [] policy request flag flag' messages messages' h =
    let same : flag ≡ flag' = cc in (λ f. (same ∙ f, tt), λ f. inl (same ∙ f))
run_evaluators_flag (e ∷ evaluators) policy request flag flag' messages messages' h =
    let (r, answered, h') = >>=-eq-ok (e.evaluate policy request) _ h in
    let (passed, refused) =
      run_evaluators_flag evaluators policy request (flag || is_denied r.result) flag' _ messages'
        h' in
    elim (is_denied_cases r.result) [
      | inl (d, result) ↦ (
        λ f.
            let (g, _) = passed f in
            let (_, no_denial) = or-false flag _ g in absurd (false≢true (sym no_denial ∙ d)),
        λ f. inr (inl (r, answered, result)),
      )
      | inr (d, result) ↦ (
        λ f.
            let (g, rest) = passed f in
            let (unset, _) = or-false flag _ g in (unset, ((r, answered, result), rest)),
        λ f. elim (refused f) [ inl g ↦ inl (or-true_left flag _ g d) | inr m ↦ inr (inr m) ],
      )
    ]

module _ (library : Library) (evaluators : List Evaluator) (request : CertificateRequest) where
  -- The first policy that is not denied decides; if there is none, every policy is denied.
  pub review_policies_cases :
      (policies : List CertificateRequestPolicy) (messages : List PolicyMessage)
      (r : ReviewResponse)
      → review_policies library evaluators request policies messages ≡ ok r
      → ((p : CertificateRequestPolicy) × In p policies
          × IsPassed evaluators request p
          × (r ≡ record { result = approved; message = approved_message library p }))
        ⊎ ((r.result ≡ denied)
            × ((p : CertificateRequestPolicy) → In p policies → IsDenied evaluators request p))
  unfolding review_policies
  review_policies_cases [] messages r h =
      let same : record { result = denied; message = denied_message messages } ≡ r = cc in
      inr (ap (λ (x : ReviewResponse). x.result) (sym same), λ p m. absurd m)
  review_policies_cases (policy ∷ policies) messages r h =
      let ((flag, texts), ran, h') =
        >>=-eq-ok (run_evaluators evaluators policy request false []) _ h in
      let (passed, refused) =
        run_evaluators_flag evaluators policy request false flag [] texts ran in
      elim (Bool-cases flag) [
        | inl set ↦
            let refusal : IsDenied evaluators request policy = elim (refused set) [
              | inl x ↦ absurd (false≢true x)
              | inr d ↦ d
            ] in
            elim (review_policies_cases policies _ r (rw set at h')) [
              | inl (p, m, passes, e) ↦ inl (p, inr m, passes, e)
              | inr (result, all) ↦
                  inr (result, λ p m. elim m [ inl same ↦ rw same refusal | inr k ↦ all p k ])
            ]
        | inr unset ↦
            let (_, passes) = passed unset in
            let answer : ◌≡◌ {A = Outcome ReviewResponse}
                (ok (record { result = approved; message = approved_message library policy }))
                (ok r) =
              rw unset at h' in
            inl (policy, inl refl, passes, cc)
      ]

pub apply_new :
    (cluster : Cluster) (evaluators : List Evaluator) (request : CertificateRequest)
    (p : CertificateRequestPolicy) (policies kept : List CertificateRequestPolicy)
    → apply_predicates (new cluster evaluators).predicates request policies ≡ ok kept
    → In p kept ↔ (In p policies × Applies cluster request p)
unfolding new apply_predicates
apply_new cluster evaluators request p policies kept h =
    let (one, ready_kept, h₁) = >>=-eq-ok (wrap _ (ready request policies)) _ h in
    let (two, issuer_kept, h₂) = >>=-eq-ok (wrap _ (selector_issuer_ref request one)) _ h₁ in
    let (three, namespace_kept, h₃) =
      >>=-eq-ok (wrap _ (selector_namespace cluster request two)) _ h₂ in
    let (four, bound_kept, h₄) = >>=-eq-ok (wrap _ (rbac_bound cluster request three)) _ h₃ in
    let same : four ≡ kept = cc in
    let (r_to, r_from) = In-ready request p policies one ((wrap-eq-ok_iff _ _ one).0 ready_kept) in
    let (i_to, i_from) =
      In-selector_issuer_ref request p one two ((wrap-eq-ok_iff _ _ two).0 issuer_kept) in
    let (n_to, n_from) =
      In-selector_namespace cluster request p two three
        ((wrap-eq-ok_iff _ _ three).0 namespace_kept) in
    let (b_to, b_from) =
      In-rbac_bound cluster request p three four ((wrap-eq-ok_iff _ _ four).0 bound_kept) in
    rw (← same) (
      λ m.
          let (m₃, bound) = b_to m in
          let (m₂, namespace) = n_to m₃ in
          let (m₁, issuer) = i_to m₂ in
          let (m₀, is_ready) = r_to m₁ in
          (
            m₀,
            record {
              is_ready = is_ready;
              issuer = issuer;
              namespace = namespace;
              is_bound = bound;
            },
          ),
      λ (m, a).
          b_from (n_from (i_from (r_from (m, a.is_ready), a.issuer), a.namespace), a.is_bound),
    )
