-- ===== src/Predicate/Selects.antt =====
-- When a policy applies to a request, with no loops: each of the four conditions of the filters.
use cert_manager_approver_po.Common.{◌≡◌, ◌⊎◌, String, Bool, true, Option, none, some, [], ok, Any}
use cert_manager_approver_po.Policy.{
  SelectorIssuerRef, SelectorNamespace, CertificateRequestPolicy, condition_ready,
}
use cert_manager_approver_po.Request.{IssuerRef, CertificateRequest}
use cert_manager_approver_po.Cluster.{Labels, Cluster}
use cert_manager_approver_po.Wildcard.Meaning.{TextMatches}
use cert_manager_approver_po.Predicate.{review_of}

-- Some condition of the policy has the type Ready and the status True.
abbrev pub IsReady : CertificateRequestPolicy → Type 0
IsReady policy =
    Any (λ c. (c.type ≡ condition_ready) × (c.status ≡ "True")) policy.status.conditions

abbrev pub PatternHolds : Option String → String → Type 0
PatternHolds none text = Unit
PatternHolds (some pattern) text = TextMatches pattern text

-- Every pattern given for the issuer matches; no selector matches all.
abbrev pub SelectsIssuer : Option SelectorIssuerRef → IssuerRef → Type 0
SelectsIssuer none ref = Unit
SelectsIssuer (some s) ref =
    PatternHolds s.name ref.name × PatternHolds s.kind ref.kind × PatternHolds s.group ref.group

module _ (cluster : Cluster) where
  -- The labels of the namespace pass the selector made of the labels to match.
  abbrev pub LabelsHold : String → Option Labels → Type 0
  LabelsHold namespace none = Unit
  LabelsHold namespace (some wanted) =
      (labels : Labels) × (selector : Labels → Bool) × (cluster.get_namespace namespace ≡ ok labels)
      × (cluster.label_selector wanted ≡ ok selector)
      × (selector labels ≡ true)

  -- The name is one of those given, if any are, and the labels hold; no selector matches all.
  abbrev pub SelectsNamespace : String → Option SelectorNamespace → Type 0
  SelectsNamespace namespace none = Unit
  SelectsNamespace namespace (some s) =
      ((s.match_names ≡ []) ⊎ Any (λ name. TextMatches name namespace) s.match_names)
      × LabelsHold namespace s.match_labels

  -- The API server lets the requesting user `use` the policy.
  abbrev pub IsBound : CertificateRequest → CertificateRequestPolicy → Type 0
  IsBound request policy = cluster.create_review (review_of cluster request policy) ≡ ok true

  pub record Applies (request : CertificateRequest) (policy : CertificateRequestPolicy)
      : Type 0 where
    pub is_ready : IsReady policy
    pub issuer : SelectsIssuer policy.spec.selector.issuer_ref request.issuer_ref
    pub namespace : SelectsNamespace request.namespace policy.spec.selector.namespace
    pub is_bound : IsBound request policy
