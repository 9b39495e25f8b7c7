-- ===== src/Predicate/Decides.antt =====
-- pkg/internal/approver/manager/predicate/predicate.go: the other filters, each against its condition.
use cert_manager_approver_po.Common.{
  ◌≡◌, refl, ◌↔◌, inl, inr, String, Bool, true, false, not, Option, none, some, List, [], ◌∷◌,
  Outcome, ok, err, panic, wrap, Any, if◌then◌else◌, str_eq_iff, arith,
}
use cert_manager_approver_po.Policy.{
  SelectorIssuerRef, Condition, CertificateRequestPolicy, condition_ready,
}
use cert_manager_approver_po.Request.{IssuerRef, CertificateRequest}
use cert_manager_approver_po.Cluster.{Cluster}
use cert_manager_approver_po.Wildcard.Meaning.{TextMatches}
use cert_manager_approver_po.Wildcard.Decides.{wildcard_matches_iff}
use cert_manager_approver_po.Predicate.{
  ready_entries, ready_policies, ready, pattern_holds, selects_issuer_ref, selector_issuer_ref,
  matches_name, rbac_bound,
}
use cert_manager_approver_po.Predicate.Filter.{In, In-append, In-filter_each}
use cert_manager_approver_po.Predicate.Selects.{IsReady, PatternHolds, SelectsIssuer, IsBound}

In-ready_entries :
    (p policy : CertificateRequestPolicy) (conditions : List Condition)
    → In p (ready_entries policy conditions)
      ↔ ((p ≡ policy) × Any (λ c. (c.type ≡ condition_ready) × (c.status ≡ "True")) conditions)
unfolding ready_entries
In-ready_entries p policy [] = (λ h. absurd h, λ (_, h). absurd h)
In-ready_entries p policy (c ∷ conditions) = grind (
  arith,
  str_eq_iff c.type condition_ready,
  str_eq_iff c.status "True",
  In-ready_entries p policy conditions,
)

In-ready_policies :
    (p : CertificateRequestPolicy) (policies : List CertificateRequestPolicy)
    → In p (ready_policies policies) ↔ (In p policies × IsReady p)
unfolding ready_policies
In-ready_policies p [] = (λ h. absurd h, λ (h, _). h)
In-ready_policies p (policy ∷ policies) =
    let (split, joined) =
      In-append p (ready_entries policy policy.status.conditions) (ready_policies policies) in
    let (here_to, here_from) = In-ready_entries p policy policy.status.conditions in
    let (later_to, later_from) = In-ready_policies p policies in
    (
      λ h. elim (split h) [
        | inl m ↦ let (same, is_ready) = here_to m in (inl same, rw same is_ready)
        | inr m ↦ let (k, is_ready) = later_to m in (inr k, is_ready)
      ],
      λ (h, is_ready). elim h [
        | inl same ↦ joined (inl (here_from (same, rw same at is_ready)))
        | inr m ↦ joined (inr (later_from (m, is_ready)))
      ],
    )

pattern_holds_iff :
    (pattern : Option String) (text : String)
    → (pattern_holds pattern text ≡ true) ↔ PatternHolds pattern text
pattern_holds_iff none text = (λ _. tt, λ _. refl)
pattern_holds_iff (some pattern) text = wildcard_matches_iff pattern text

guards_iff :
    (a b c : Bool)
    → ((if not a then false else if not b then false else if not c then false else true) ≡ true)
      ↔ ((a ≡ true) × (b ≡ true) × (c ≡ true))
guards_iff a b c = ground arith

selects_issuer_ref_iff :
    (selector : Option SelectorIssuerRef) (ref : IssuerRef)
    → (selects_issuer_ref selector ref ≡ true) ↔ SelectsIssuer selector ref
unfolding selects_issuer_ref
selects_issuer_ref_iff none ref = (λ _. tt, λ _. refl)
selects_issuer_ref_iff (some s) ref =
    let (name_to, name_from) = pattern_holds_iff s.name ref.name in
    let (kind_to, kind_from) = pattern_holds_iff s.kind ref.kind in
    let (group_to, group_from) = pattern_holds_iff s.group ref.group in
    let (to, from) =
      guards_iff (pattern_holds s.name ref.name) (pattern_holds s.kind ref.kind)
        (pattern_holds s.group ref.group) in
    (
      λ h. let (n, k, g) = to h in (name_to n, kind_to k, group_to g),
      λ (n, k, g). from (name_from n, kind_from k, group_from g),
    )

pub matches_name_iff :
    (names : List String) (namespace : String)
    → (matches_name names namespace ≡ true) ↔ Any (λ name. TextMatches name namespace) names
unfolding matches_name
matches_name_iff [] namespace = (λ h. cc, λ h. absurd h)
matches_name_iff (n ∷ names) namespace =
    grind (arith, wildcard_matches_iff n namespace, matches_name_iff names namespace)

ok-eq-ok_iff : (a b : Bool) → (◌≡◌ {A = Outcome Bool} (ok a) (ok b)) ↔ (a ≡ b)
ok-eq-ok_iff a b = (λ h. cc, λ h. cc)

-- A wrapped call that answers is a call that answers.
pub wrap-eq-ok_iff {ℓ} :
    {A : Type ℓ} (text : String) (m : Outcome A) (a : A) → (wrap text m ≡ ok a) ↔ (m ≡ ok a)
wrap-eq-ok_iff text (ok b) a = (λ h. h, λ h. h)
wrap-eq-ok_iff text (err e) a = (λ h. cc, λ h. cc)
wrap-eq-ok_iff text panic a = (λ h. cc, λ h. cc)

-- `Ready` keeps the policies with a condition Ready that is True.
pub In-ready :
    (request : CertificateRequest) (p : CertificateRequestPolicy)
    (policies kept : List CertificateRequestPolicy)
    → ready request policies ≡ ok kept
    → In p kept ↔ (In p policies × IsReady p)
unfolding ready
In-ready request p policies kept h =
    let same : ready_policies policies ≡ kept = cc in rw (← same) (In-ready_policies p policies)

-- `SelectorIssuerRef` keeps the policies whose issuer selector matches.
pub In-selector_issuer_ref :
    (request : CertificateRequest) (p : CertificateRequestPolicy)
    (policies kept : List CertificateRequestPolicy)
    → selector_issuer_ref request policies ≡ ok kept
    → In p kept ↔ (In p policies × SelectsIssuer p.spec.selector.issuer_ref request.issuer_ref)
unfolding selector_issuer_ref
In-selector_issuer_ref request p policies kept h =
    let (to, from) = In-filter_each _ p policies kept h in
    let (sound, complete) = selects_issuer_ref_iff p.spec.selector.issuer_ref request.issuer_ref in
    let (strip, unstrip) =
      ok-eq-ok_iff (selects_issuer_ref p.spec.selector.issuer_ref request.issuer_ref) true in
    (λ m. let (k, t) = to m in (k, sound (strip t)), λ (k, s). from (k, unstrip (complete s)))

-- `RBACBound` keeps the policies that the user may use.
pub In-rbac_bound :
    (cluster : Cluster) (request : CertificateRequest) (p : CertificateRequestPolicy)
    (policies kept : List CertificateRequestPolicy)
    → rbac_bound cluster request policies ≡ ok kept
    → In p kept ↔ (In p policies × IsBound cluster request p)
unfolding rbac_bound
In-rbac_bound cluster request p policies kept h =
    let (to, from) = In-filter_each _ p policies kept h in
    let (strip, unstrip) = wrap-eq-ok_iff "failed to create subjectaccessreview" _ true in
    (λ m. let (k, t) = to m in (k, strip t), λ (k, s). from (k, unstrip s))
