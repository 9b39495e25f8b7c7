-- ===== src/Manager/Review.antt =====
-- `Review`: list the policies, filter them, and run every evaluator on each policy that is left, in
-- order, until one policy is not denied.
use cert_manager_approver_po.Common.{
  ℤ, String, Bool, true, false, ◌||◌, List, [], ◌∷◌, ◌++◌, map, Outcome, ok, ◌>>=◌, wrap,
  if◌then◌else◌, is_empty, join, ◌+++◌, str_lt,
}
use cert_manager_approver_po.Common.Sort.{sort_stable}
use cert_manager_approver_po.Policy.{CertificateRequestPolicy}
use cert_manager_approver_po.Request.{CertificateRequest}
use cert_manager_approver_po.Approver.{Evaluator, EvaluationResult, not_denied}
use cert_manager_approver_po.Library.{Library}
use cert_manager_approver_po.Cluster.{Cluster}
use cert_manager_approver_po.Predicate.{
  Predicate, ready, selector_issuer_ref, selector_namespace, rbac_bound,
}

-- An integer in the source: 1, 2, 3, and any other value as `other_result`.
pub data ReviewResult : Type 0 where
  approved denied unprocessed : ReviewResult
  other_result : ℤ → ReviewResult

pub record ReviewResponse : Type 0 where
  pub result : ReviewResult
  pub message : String

pub record PolicyMessage : Type 0 where
  pub name : String
  pub message : String

-- The manager's `lister` and `client` are the cluster.
pub record Manager : Type 0 where
  pub predicates : List Predicate
  pub evaluators : List Evaluator

-- `New`
unfoldable pub new : Cluster → List Evaluator → Manager
new cluster evaluators = record {
  predicates = ready ∷ selector_issuer_ref ∷ selector_namespace cluster ∷ rbac_bound cluster ∷ [];
  evaluators = evaluators;
}

abbrev pub is_denied : EvaluationResult → Bool
is_denied EvaluationResult.denied = true
is_denied not_denied = false

-- The loop over the predicates.
unfoldable pub apply_predicates :
    List Predicate
    → CertificateRequest
    → List CertificateRequestPolicy
    → Outcome (List CertificateRequestPolicy)
apply_predicates [] request policies = ok policies
apply_predicates (predicate ∷ predicates) request policies = do
  kept ← wrap "failed to perform predicate on policies" (predicate request policies)
  apply_predicates predicates request kept

-- The loop over the evaluators for one policy: whether one denied, and the messages.
unfoldable pub run_evaluators :
    List Evaluator
    → CertificateRequestPolicy
    → CertificateRequest
    → Bool
    → List String
    → Outcome (Bool × List String)
run_evaluators [] policy request evaluator_denied messages = ok (evaluator_denied, messages)
run_evaluators (evaluator ∷ evaluators) policy request evaluator_denied messages = do
  response ← evaluator.evaluate policy request
  run_evaluators evaluators policy request (evaluator_denied || is_denied response.result)
      (if is_empty response.message then messages else messages ++ response.message ∷ [])

abbrev pub format_message : PolicyMessage → String
format_message m = "[" +++ m.name +++ ": " +++ m.message +++ "]"

abbrev pub denied_message : List PolicyMessage → String
denied_message messages =
    "No policy approved this request: "
    +++ join (map format_message (sort_stable (λ a b. str_lt a.name b.name) messages)) " "

module _ (library : Library) where
  abbrev pub approved_message : CertificateRequestPolicy → String
  approved_message policy = "Approved by CertificateRequestPolicy: " +++ library.quote policy.name

  -- The loop over the policies.
  unfoldable pub review_policies :
      List Evaluator
      → CertificateRequest
      → List CertificateRequestPolicy
      → List PolicyMessage
      → Outcome ReviewResponse
  review_policies evaluators request [] messages =
      ok (record { result = denied; message = denied_message messages })
  review_policies evaluators request (policy ∷ policies) messages = do
    (evaluator_denied, evaluator_messages) ← run_evaluators evaluators policy request false []
    let rest =
        review_policies evaluators request policies
          (messages ++ record { name = policy.name; message = join evaluator_messages ", " } ∷ [])
    if evaluator_denied
        then rest
        else ok (record { result = approved; message = approved_message policy })

  -- The review once the policies have been filtered.
  unfoldable pub review_applicable :
      List Evaluator → CertificateRequest → List CertificateRequestPolicy → Outcome ReviewResponse
  review_applicable evaluators request [] = ok (record {
    result = unprocessed;
    message = "No CertificateRequestPolicies bound or applicable";
  })
  review_applicable evaluators request (policy ∷ policies) =
      review_policies evaluators request (policy ∷ policies) []

  unfoldable pub review_listed :
      Manager → CertificateRequest → List CertificateRequestPolicy → Outcome ReviewResponse
  review_listed manager request [] =
      ok (record { result = unprocessed; message = "No CertificateRequestPolicies exist" })
  review_listed manager request (policy ∷ policies) = do
    applicable ← apply_predicates manager.predicates request (policy ∷ policies)
    review_applicable manager.evaluators request applicable

  -- `Review`
  unfoldable pub review : Cluster → Manager → CertificateRequest → Outcome ReviewResponse
  unfolding review_listed review_applicable
  review cluster manager request = do
    policies ← cluster.list_policies
    review_listed manager request policies
