-- ===== src/Cluster.antt =====
-- The Kubernetes API as the approver manager reads it during one review: one answer to each call.
-- The API server and the client libraries are no part of the repository.
use cert_manager_approver_po.Common.{String, Bool, List, Outcome}
use cert_manager_approver_po.Policy.{CertificateRequestPolicy}

abbrev pub Labels : Type 0
Labels = List (String × String)

-- `authzv1.SubjectAccessReviewSpec` with its `ResourceAttributes`, as far as the program fills them.
pub record AccessReview : Type 0 where
  pub user : String
  pub groups : List String
  pub extra : List (String × List String)
  pub uid : String
  pub group : String
  pub resource : String
  pub name : String
  pub namespace : String
  pub verb : String

pub record Cluster : Type 0 where
  -- `lister.List` of the policies
  pub list_policies : Outcome (List CertificateRequestPolicy)
  -- `lister.Get` of a namespace, and its labels
  pub get_namespace : String → Outcome Labels
  -- `client.Create` of a review, and its `Status.Allowed`
  pub create_review : AccessReview → Outcome Bool
  -- `metav1.LabelSelectorAsSelector` of labels to match, and the selector's `Matches`
  pub label_selector : Labels → Outcome (Labels → Bool)
