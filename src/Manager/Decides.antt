-- ===== src/Manager/Decides.antt =====
-- pkg/internal/approver/manager/review.go: the three answers of a review and what each says.
use cert_manager_approver_po.Common.{◌≡◌, refl, ap, ◌↔◌, inl, inr, List, [], ◌∷◌, ok, >>=-eq-ok}
use cert_manager_approver_po.Policy.{CertificateRequestPolicy}
use cert_manager_approver_po.Request.{CertificateRequest}
use cert_manager_approver_po.Approver.{Evaluator}
use cert_manager_approver_po.Library.{Library}
use cert_manager_approver_po.Cluster.{Cluster}
use cert_manager_approver_po.Predicate.Filter.{In}
use cert_manager_approver_po.Predicate.Selects.{Applies}
use cert_manager_approver_po.Manager.Review.{
  Manager, approved, denied, unprocessed, ReviewResponse, new, apply_predicates, approved_message,
  review_applicable, review_listed, review,
}
use cert_manager_approver_po.Manager.Sound.{IsPassed, IsDenied, apply_new, review_policies_cases}

-- A review that returns has listed the policies.
pub review-listed_policies :
    (library : Library) (cluster : Cluster) (manager : Manager) (request : CertificateRequest)
    (response : ReviewResponse)
    → review library cluster manager request ≡ ok response
    → (policies : List CertificateRequestPolicy) × (cluster.list_policies ≡ ok policies)
unfolding review
review-listed_policies library cluster manager request response h =
    let (policies, listed, _) = >>=-eq-ok cluster.list_policies _ h in (policies, listed)

-- No evaluator both denies a policy and passes it.
pub IsPassed-IsDenied :
    (evaluators : List Evaluator) (request : CertificateRequest) (p : CertificateRequestPolicy)
    → IsPassed evaluators request p
    → IsDenied evaluators request p
    → ⊥
IsPassed-IsDenied [] request p h d = d
IsPassed-IsDenied (e ∷ evaluators) request p ((r, answered, result), h) d = elim d [
  | inl (s, answered', result') ↦ let same : r ≡ s = cc in cc
  | inr m ↦ IsPassed-IsDenied evaluators request p h m
]

module _ (library : Library) (cluster : Cluster) (evaluators : List Evaluator)
    (request : CertificateRequest) where
  -- A policy of the cluster that applies to the request.
  abbrev pub IsCandidate : List CertificateRequestPolicy → CertificateRequestPolicy → Type 0
  IsCandidate policies p = In p policies × Applies cluster request p

  -- The three answers of a review, each with what it means.
  pub data Verdict (policies : List CertificateRequestPolicy) (r : ReviewResponse) : Type 0 where
    by_policy :
        (p : CertificateRequestPolicy)
        → IsCandidate policies p
        → IsPassed evaluators request p
        → r ≡ record { result = approved; message = approved_message library p }
        → Verdict policies r
    all_denied :
        (p : CertificateRequestPolicy)
        → IsCandidate policies p
        → ((q : CertificateRequestPolicy) → IsCandidate policies q → IsDenied evaluators request q)
        → r.result ≡ denied
        → Verdict policies r
    none_applies :
        ((q : CertificateRequestPolicy) → ¬ IsCandidate policies q)
        → r.result ≡ unprocessed
        → Verdict policies r

  applicable-Verdict :
      (policies kept : List CertificateRequestPolicy) (r : ReviewResponse)
      → ((p : CertificateRequestPolicy) → In p kept ↔ IsCandidate policies p)
      → review_applicable library evaluators request kept ≡ ok r
      → Verdict policies r
  unfolding review_applicable
  applicable-Verdict policies [] r same h = none_applies (λ q c. (same q).1 c) (cc)
  applicable-Verdict policies (k ∷ kept) r same h =
      elim (review_policies_cases library evaluators request (k ∷ kept) [] r h) [
        | inl (p, m, passes, e) ↦ by_policy p ((same p).0 m) passes e
        | inr (result, all) ↦
            all_denied k ((same k).0 (inl refl)) (λ q c. all q ((same q).1 c)) result
      ]

  review_listed-Verdict :
      (policies : List CertificateRequestPolicy) (r : ReviewResponse)
      → review_listed library (new cluster evaluators) request policies ≡ ok r
      → Verdict policies r
  unfolding review_listed new
  review_listed-Verdict [] r h = none_applies (λ q (m, _). m) (cc)
  review_listed-Verdict (p ∷ policies) r h =
      let (kept, applied, h') =
        >>=-eq-ok (apply_predicates (new cluster evaluators).predicates request (p ∷ policies)) _
          h in
      applicable-Verdict (p ∷ policies) kept r
        (λ q. apply_new cluster evaluators request q (p ∷ policies) kept applied) h'

  module _ (policies : List CertificateRequestPolicy) (r : ReviewResponse)
      (listed : cluster.list_policies ≡ ok policies)
      (reviewed : review library cluster (new cluster evaluators) request ≡ ok r) where
    pub review-Verdict : Verdict policies r
    unfolding review
    review-Verdict =
        let (ps, got, h) = >>=-eq-ok cluster.list_policies _ reviewed in
        let same : ps ≡ policies = cc in review_listed-Verdict policies r (rw same at h)

    approved-Verdict :
        Verdict policies r
        → r.result ≡ approved
        → (p : CertificateRequestPolicy) × IsCandidate policies p
          × IsPassed evaluators request p
          × (r.message ≡ approved_message library p)
    approved-Verdict (by_policy p c passes e) h =
        (p, c, passes, ap (λ (x : ReviewResponse). x.message) e)
    approved-Verdict (all_denied p c all e) h = cc
    approved-Verdict (none_applies n e) h = cc

    approved_of_pass :
        (p : CertificateRequestPolicy)
        → Verdict policies r
        → IsCandidate policies p
        → IsPassed evaluators request p
        → r.result ≡ approved
    approved_of_pass p (by_policy q _ _ e) c h = ap (λ (x : ReviewResponse). x.result) e
    approved_of_pass p (all_denied _ _ all e) c h =
        absurd (IsPassed-IsDenied evaluators request p h (all p c))
    approved_of_pass p (none_applies n e) c h = absurd (n p c)

    -- For a review that returns: the request is approved exactly when some policy that is listed
    -- and applies to it is denied by no evaluator; the response then names such a policy.
    pub review-approved_iff :
        ((r.result ≡ approved) ↔ (
          (p : CertificateRequestPolicy) × IsCandidate policies p × IsPassed evaluators request p))
        × (r.result ≡ approved
            → (p : CertificateRequestPolicy) × IsCandidate policies p
              × IsPassed evaluators request p
              × (r.message ≡ approved_message library p))
    review-approved_iff = (
      (
        λ h. let (p, c, passes, _) = approved-Verdict review-Verdict h in (p, c, passes),
        λ (p, c, passes). approved_of_pass p review-Verdict c passes,
      ),
      approved-Verdict review-Verdict,
    )

    denied-Verdict :
        Verdict policies r
        → (r.result ≡ denied) ↔ (
            ((p : CertificateRequestPolicy) × IsCandidate policies p)
            × ((q : CertificateRequestPolicy)
                → IsCandidate policies q
                → IsDenied evaluators request q))
    denied-Verdict (by_policy p c passes e) = (
      λ h. let other = ap (λ (x : ReviewResponse). x.result) e in cc,
      λ (_, all). absurd (IsPassed-IsDenied evaluators request p passes (all p c)),
    )
    denied-Verdict (all_denied p c all e) = (λ _. ((p, c), all), λ _. e)
    denied-Verdict (none_applies n e) = (λ h. cc, λ ((p, c), _). absurd (n p c))

    -- For a review that returns: the request is denied exactly when some listed policy applies to
    -- it, and every listed policy that applies is denied by some evaluator.
    pub review-denied_iff : (r.result ≡ denied) ↔ (
        ((p : CertificateRequestPolicy) × IsCandidate policies p)
        × ((q : CertificateRequestPolicy) → IsCandidate policies q → IsDenied evaluators request q))
    review-denied_iff = denied-Verdict review-Verdict

    unprocessed-Verdict :
        Verdict policies r
        → (r.result ≡ unprocessed) ↔ ((q : CertificateRequestPolicy) → ¬ IsCandidate policies q)
    unprocessed-Verdict (by_policy p c passes e) =
        (λ h. let other = ap (λ (x : ReviewResponse). x.result) e in cc, λ n. absurd (n p c))
    unprocessed-Verdict (all_denied p c all e) = (λ h. cc, λ n. absurd (n p c))
    unprocessed-Verdict (none_applies n e) = (λ _. n, λ _. e)

    -- For a review that returns: the request is left unprocessed exactly when no listed policy
    -- applies to it.
    pub review-unprocessed_iff :
        (r.result ≡ unprocessed) ↔ ((q : CertificateRequestPolicy) → ¬ IsCandidate policies q)
    review-unprocessed_iff = unprocessed-Verdict review-Verdict
