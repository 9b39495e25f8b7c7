-- ===== src/Builtin/Sound.antt =====
-- What the repository's own build approves.
use cert_manager_approver_po.Common.{
  ℤ, ◌≡◌, refl, ◌↔◌, inl, inr, String, Option, none, some, List, [], ◌∷◌, Outcome, ok, err, panic,
  >>=-eq-ok,
}
use cert_manager_approver_po.Policy.{
  ConstraintsPrivateKey, Constraints, AllowedStringSlice, AllowedString, AllowedX509Subject,
  CertificateRequestPolicy,
}
use cert_manager_approver_po.Request.{CertificateRequest, SubjectName, Csr}
use cert_manager_approver_po.Approver.{EvaluationResponse}
use cert_manager_approver_po.Library.{Library}
use cert_manager_approver_po.Cluster.{Cluster}
use cert_manager_approver_po.Allowed.Evaluate.{evaluate as allowed_evaluate, allowed_of}
use cert_manager_approver_po.Allowed.Permits.{
  PermitsValues, PermitsText, PermitsSubject, Permits, Dangling, DanglingText, DanglingSubject,
}
use cert_manager_approver_po.Allowed.Decides.{evaluate-panic_iff, evaluate-Permits_iff}
use cert_manager_approver_po.Allowed.Interface.{allowed_approver}
use cert_manager_approver_po.Constraints.Evaluate.{read_key}
use cert_manager_approver_po.Constraints.Satisfies.{
  Satisfies, NeedsRead, SatisfiesKey, ReadFits, KeyIsRead, IsRead,
}
use cert_manager_approver_po.Constraints.Decides.{evaluate-ok_iff, evaluate-Satisfies_iff}
use cert_manager_approver_po.Constraints.Interface.{constraints_approver}
use cert_manager_approver_po.Manager.Review.{approved, ReviewResponse, new, review}
use cert_manager_approver_po.Manager.Sound.{IsPassed}
use cert_manager_approver_po.Manager.Decides.{IsCandidate, review-approved_iff}
use cert_manager_approver_po.Registry.{Registry, has_name_of, has_conflict, store, evaluators}
use cert_manager_approver_po.Builtin.{load_approvers}

PermitsValues-Dangling :
    (allowed : Option AllowedStringSlice) (given : List String)
    → PermitsValues allowed given
    → ¬ Dangling allowed given
PermitsValues-Dangling allowed [] h d = d
PermitsValues-Dangling none (g ∷ given) h d = d
PermitsValues-Dangling (some a) (g ∷ given) (values, present, _) d = cc

PermitsText-DanglingText :
    (allowed : Option AllowedString) (given : String)
    → PermitsText allowed given
    → ¬ DanglingText allowed given
PermitsText-DanglingText allowed String.[] h d = d
PermitsText-DanglingText none (String.◌∷◌ c given) h d = d
PermitsText-DanglingText (some a) (String.◌∷◌ c given) (value, present, _) d = cc

-- A permitted subject has nothing dangling.
PermitsSubject-DanglingSubject :
    (a : Option AllowedX509Subject) (s : SubjectName) → PermitsSubject a s → ¬ DanglingSubject a s
PermitsSubject-DanglingSubject a s h d = elim d [
  | inl x ↦ PermitsValues-Dangling _ s.country h.countries x
  | inr (inl x) ↦ PermitsValues-Dangling _ s.organizational_unit h.organizational_units x
  | inr (inr (inl x)) ↦ PermitsValues-Dangling _ s.locality h.localities x
  | inr (inr (inr (inl x))) ↦ PermitsValues-Dangling _ s.province h.provinces x
  | inr (inr (inr (inr (inl x)))) ↦ PermitsValues-Dangling _ s.street_address h.street_addresses x
  | inr (inr (inr (inr (inr (inl x))))) ↦ PermitsValues-Dangling _ s.postal_code h.postal_codes x
  | inr (inr (inr (inr (inr (inr x))))) ↦
      PermitsText-DanglingText _ s.serial_number h.serial_number x
]

module _ (library : Library) where
  -- The request decodes, and the policy permits what it asks for and is satisfied by it.
  pub record Accepts (request : CertificateRequest) (policy : CertificateRequestPolicy)
      : Type 0 where
    pub csr : Csr library.Url
    pub decoded : library.decode_csr request.request ≡ ok csr
    pub permits : Permits library (allowed_of policy) request csr
    pub satisfies : Satisfies library policy.spec.constraints request

  decodes :
      (p : CertificateRequestPolicy) (request : CertificateRequest) (r : EvaluationResponse)
      → allowed_evaluate library p request ≡ ok r
      → (csr : Csr library.Url) × (library.decode_csr request.request ≡ ok csr) × Unit {0}
  unfolding allowed_evaluate
  decodes p request r h =
      let (csr, decoded, _) = >>=-eq-ok (library.decode_csr request.request) _ h in
      (csr, decoded, tt)

  -- The two `init` functions fill the registry, in this order.
  pub load_approvers-approvers :
      (loaded : Registry)
      → load_approvers library ≡ ok loaded
      → loaded.approvers ≡ allowed_approver library ∷ constraints_approver library ∷ []
  unfolding load_approvers store has_conflict has_name_of
  load_approvers-approvers loaded h =
      let same : loaded
          ≡ record { approvers = allowed_approver library ∷ constraints_approver library ∷ [] } =
        cc in
      rw same refl

  ReadFits-IsRead :
      (key : ConstraintsPrivateKey) (o : Outcome (String × ℤ)) → ReadFits key o → IsRead o
  ReadFits-IsRead key (ok _) h = tt
  ReadFits-IsRead key (err e) h = h
  ReadFits-IsRead key panic h = h

  SatisfiesKey-KeyIsRead :
      (key : Option ConstraintsPrivateKey) (request : CertificateRequest)
      → SatisfiesKey library key request
      → KeyIsRead library key request
  SatisfiesKey-KeyIsRead none request s = tt
  SatisfiesKey-KeyIsRead (some key) request s = ReadFits-IsRead key (read_key library request) s

  Satisfies-NeedsRead :
      (c : Option Constraints) (request : CertificateRequest)
      → Satisfies library c request
      → NeedsRead library c request
  Satisfies-NeedsRead none request s = tt
  Satisfies-NeedsRead (some c) request s =
      SatisfiesKey-KeyIsRead c.private_key request s.private_key

  -- The two approvers pass what the policy accepts, and nothing else.
  pub IsPassed-Accepts :
      (request : CertificateRequest) (p : CertificateRequestPolicy) (loaded : Registry)
      → load_approvers library ≡ ok loaded
      → IsPassed (evaluators loaded) request p ↔ Accepts request p
  unfolding evaluators
  IsPassed-Accepts request p loaded h = rw (load_approvers-approvers loaded h) (to, from)
    where
      to :
          IsPassed
            ((allowed_approver library).evaluator ∷ (constraints_approver library).evaluator ∷ [])
            request
            p
          → Accepts request p
      to ((r, answered, result), ((s, answered', result'), _)) =
          let (csr, decoded, _) = decodes p request r answered in
          let sound : ¬ DanglingSubject (allowed_of p).subject csr.subject =
            λ d. let stopped = (evaluate-panic_iff library p request csr decoded).1 d in cc in
          let (q, answers, decides) = evaluate-Permits_iff library p request csr decoded sound in
          let same : r ≡ q = cc in
          record {
            csr = csr;
            decoded = decoded;
            permits = decides.0 (rw (← same) result);
            satisfies = (evaluate-Satisfies_iff library p request s answered').0 result';
          }

      from :
          Accepts request p
          → IsPassed
              ((allowed_approver library).evaluator ∷ (constraints_approver library).evaluator ∷ [])
              request
              p
      from a =
          let sound = PermitsSubject-DanglingSubject _ _ a.permits.subject in
          let (q, answers, decides) =
            evaluate-Permits_iff library p request a.csr a.decoded sound in
          let read = Satisfies-NeedsRead p.spec.constraints request a.satisfies in
          let (s, answers') = (evaluate-ok_iff library p request).1 read in
          (
            (q, answers, decides.1 a.permits),
            (
              (s, answers', (evaluate-Satisfies_iff library p request s answers').1 a.satisfies),
              tt,
            ),
          )

  module _ (cluster : Cluster) (request : CertificateRequest) (loaded : Registry)
      (policies : List CertificateRequestPolicy) (r : ReviewResponse) where
    -- For a review that returns, in the repository's own build: the request is approved exactly when
    -- some listed policy that applies to it accepts it, that is, the signing request decodes, the
    -- policy's `allowed` block permits its attributes, and it satisfies the policy's constraints.
    pub review-Accepts_iff :
        load_approvers library ≡ ok loaded
        → cluster.list_policies ≡ ok policies
        → review library cluster (new cluster (evaluators loaded)) request ≡ ok r
        → (r.result ≡ approved) ↔ (
            (p : CertificateRequestPolicy) × IsCandidate library cluster
              (evaluators loaded)
              request
              policies
              p
            × Accepts request p)
    review-Accepts_iff load listed reviewed =
        let (iff, _) =
          review-approved_iff library cluster (evaluators loaded) request policies r listed
            reviewed in
        (
          λ h.
              let (p, c, passes) = iff.0 h in
              (p, c, (IsPassed-Accepts request p loaded load).0 passes),
          λ (p, c, a). iff.1 (p, c, (IsPassed-Accepts request p loaded load).1 a),
        )
