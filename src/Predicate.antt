-- ===== src/Predicate.antt =====
-- pkg/internal/approver/manager/predicate/predicate.go: the filters that choose the policies which
-- apply to a request.
pub mod Filter
pub mod Selects
pub mod Decides
pub mod Namespace
use cert_manager_approver_po.Common.{
  String, Bool, true, false, not, ◌&&◌, ◌||◌, Option, none, some, List, [], ◌∷◌, ◌++◌, Outcome, ok,
  ◌>>=◌, wrap, if◌then◌else◌, is_nil, str_eq,
}
use cert_manager_approver_po.Policy.{
  SelectorIssuerRef, SelectorNamespace, Condition, CertificateRequestPolicy, condition_ready,
}
use cert_manager_approver_po.Request.{IssuerRef, CertificateRequest}
use cert_manager_approver_po.Cluster.{Labels, AccessReview, Cluster}
use cert_manager_approver_po.Wildcard.{wildcard_matches}
use Filter.{filter_each}

abbrev pub Predicate : Type 0
Predicate =
    CertificateRequest → List CertificateRequestPolicy → Outcome (List CertificateRequestPolicy)

abbrev pub is_ready_condition : Condition → Bool
is_ready_condition c = str_eq c.type condition_ready && str_eq c.status "True"

-- The inner loop of `Ready`: the policy once for each of its conditions that is Ready and True.
unfoldable pub ready_entries :
    CertificateRequestPolicy → List Condition → List CertificateRequestPolicy
ready_entries policy [] = []
ready_entries policy (c ∷ conditions) =
    let rest = ready_entries policy conditions in
    if is_ready_condition c then policy ∷ rest else rest

unfoldable pub ready_policies : List CertificateRequestPolicy → List CertificateRequestPolicy
ready_policies [] = []
ready_policies (policy ∷ policies) =
    ready_entries policy policy.status.conditions ++ ready_policies policies

-- `Ready`
unfoldable pub ready : Predicate
ready request policies = ok (ready_policies policies)

abbrev pub pattern_holds : Option String → String → Bool
pattern_holds none text = true
pattern_holds (some pattern) text = wildcard_matches pattern text

-- The body of the loop of `SelectorIssuerRef`.
unfoldable pub selects_issuer_ref : Option SelectorIssuerRef → IssuerRef → Bool
selects_issuer_ref none ref = true
selects_issuer_ref (some selector) ref =
    if not (pattern_holds selector.name ref.name)
    then false
    else if not (pattern_holds selector.kind ref.kind)
    then false
    else if not (pattern_holds selector.group ref.group)
    then false
    else true

-- `SelectorIssuerRef`
unfoldable pub selector_issuer_ref : Predicate
selector_issuer_ref request policies =
    filter_each
      (λ policy. ok (selects_issuer_ref policy.spec.selector.issuer_ref request.issuer_ref))
      policies

-- The loop over `MatchNames`.
unfoldable pub matches_name : List String → String → Bool
matches_name [] namespace = false
matches_name (name ∷ names) namespace =
    if wildcard_matches name namespace then true else matches_name names namespace

module _ (cluster : Cluster) where
  open cluster use {get_namespace, create_review, label_selector}

  -- The namespace's labels, fetched at the first use and kept.
  unfoldable pub namespace_labels : String → Option Labels → Outcome Labels
  namespace_labels namespace (some labels) = ok labels
  namespace_labels namespace none =
      wrap "failed to get request's namespace to determine namespace selector"
        (get_namespace namespace)

  -- The label part of one round: whether to keep the policy, and the labels fetched so far.
  unfoldable pub match_labels :
      String → Option Labels → Option Labels → Outcome (Bool × Option Labels)
  match_labels namespace none fetched = ok (true, fetched)
  match_labels namespace (some wanted) fetched = do
    labels ← namespace_labels namespace fetched
    selector ← wrap "failed to parse namespace label selector" (label_selector wanted)
    ok (selector labels, some labels)

  -- One round of the loop of `SelectorNamespace`.
  unfoldable pub match_namespace :
      String → Option SelectorNamespace → Option Labels → Outcome (Bool × Option Labels)
  match_namespace namespace none fetched = ok (true, fetched)
  match_namespace namespace (some selector) fetched =
      if not (is_nil selector.match_names || matches_name selector.match_names namespace)
      then ok (false, fetched)
      else match_labels namespace selector.match_labels fetched

  unfoldable pub namespace_loop :
      String
      → Option Labels
      → List CertificateRequestPolicy
      → Outcome (List CertificateRequestPolicy)
  namespace_loop namespace fetched [] = ok []
  namespace_loop namespace fetched (policy ∷ policies) = do
    (keep, fetched') ← match_namespace namespace policy.spec.selector.namespace fetched
    rest ← namespace_loop namespace fetched' policies
    ok (if keep then policy ∷ rest else rest)

  -- `SelectorNamespace`
  unfoldable pub selector_namespace : Predicate
  selector_namespace request policies = namespace_loop request.namespace none policies

  -- The review that `RBACBound` creates for a policy.
  abbrev pub review_of : CertificateRequest → CertificateRequestPolicy → AccessReview
  review_of request policy = record {
    user = request.username;
    groups = request.groups;
    extra = request.extra;
    uid = request.uid;
    group = "policy.cert-manager.io";
    resource = "certificaterequestpolicies";
    name = policy.name;
    namespace = request.namespace;
    verb = "use";
  }

  -- `RBACBound`
  unfoldable pub rbac_bound : Predicate
  rbac_bound request policies =
      filter_each
        (λ policy.
          wrap "failed to create subjectaccessreview" (create_review (review_of request policy)))
        policies
