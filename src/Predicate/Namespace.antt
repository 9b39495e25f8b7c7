-- ===== src/Predicate/Namespace.antt =====
-- pkg/internal/approver/manager/predicate/predicate.go: the filter on namespaces, which fetches the
-- labels of the request's namespace at most once.
use mathlib.Core.Bool.{false≢true}
use cert_manager_approver_po.Wildcard.Meaning.{TextMatches}
use cert_manager_approver_po.Common.{
  ◌≡◌, refl, sym, ap, ◌∙◌, ◌↔◌, ◌⊎◌, inl, inr, String, Bool, true, false, Bool-cases, ◌||◌, Option,
  none, some, List, [], ◌∷◌, Outcome, ok, err, panic, ◌>>=◌, >>=-eq-ok, wrap, Any, if◌then◌else◌,
  is_nil,
}
use cert_manager_approver_po.Policy.{SelectorNamespace, CertificateRequestPolicy}
use cert_manager_approver_po.Request.{CertificateRequest}
use cert_manager_approver_po.Cluster.{Labels, Cluster}
use cert_manager_approver_po.Predicate.{
  matches_name, namespace_labels, match_labels, match_namespace, namespace_loop, selector_namespace,
}
use cert_manager_approver_po.Predicate.Filter.{In, filter_each, In-filter_each}
use cert_manager_approver_po.Predicate.Selects.{LabelsHold, SelectsNamespace}
use cert_manager_approver_po.Predicate.Decides.{matches_name_iff, wrap-eq-ok_iff}

module _ (cluster : Cluster) (namespace : String) where
  -- One round for a policy on its own, which fetches the labels if it needs them.
  pub match_alone : Option SelectorNamespace → Outcome Bool
  match_alone selector = do (keep, _) ← match_namespace cluster namespace selector none; ok keep

  -- What has been fetched is what the API answers.
  abbrev IsFetched : Option Labels → Type 0
  IsFetched none = Unit
  IsFetched (some labels) = cluster.get_namespace namespace ≡ ok labels

  namespace_labels_fetched :
      (fetched : Option Labels)
      → IsFetched fetched
      → namespace_labels cluster namespace fetched ≡ namespace_labels cluster namespace none
  unfolding namespace_labels
  namespace_labels_fetched none h = refl
  namespace_labels_fetched (some labels) h = rw h

  get_of_labels :
      (labels : Labels)
      → namespace_labels cluster namespace none ≡ ok labels
      → cluster.get_namespace namespace ≡ ok labels
  unfolding namespace_labels
  get_of_labels labels h =
      (wrap-eq-ok_iff "failed to get request's namespace to determine namespace selector"
          (cluster.get_namespace namespace) labels).0
        h

  match_labels-IsFetched :
      (wanted fetched fetched' : Option Labels) (keep : Bool)
      → IsFetched fetched
      → match_labels cluster namespace wanted fetched ≡ ok (keep, fetched')
      → IsFetched fetched'
  unfolding match_labels
  match_labels-IsFetched none fetched fetched' keep f h =
      let same : fetched ≡ fetched' = cc in rw same at f
  match_labels-IsFetched (some wanted) fetched fetched' keep f h =
      let (labels, got, h') = >>=-eq-ok (namespace_labels cluster namespace fetched) _ h in
      let (selector, _, h'') = >>=-eq-ok (wrap _ (cluster.label_selector wanted)) _ h' in
      let same : fetched' ≡ some labels = cc in
      rw same (get_of_labels labels (sym (namespace_labels_fetched fetched f) ∙ got))

  match_labels_alone :
      (wanted fetched : Option Labels)
      → IsFetched fetched
      → (match_labels cluster namespace wanted fetched >>= λ (keep, _). ok keep)
        ≡ (match_labels cluster namespace wanted none >>= λ (keep, _). ok keep)
  unfolding match_labels
  match_labels_alone none fetched f = refl
  match_labels_alone (some wanted) fetched f = rw (namespace_labels_fetched fetched f)

  match_namespace-IsFetched :
      (selector : Option SelectorNamespace) (fetched fetched' : Option Labels) (keep : Bool)
      → IsFetched fetched
      → match_namespace cluster namespace selector fetched ≡ ok (keep, fetched')
      → IsFetched fetched'
  unfolding match_namespace
  match_namespace-IsFetched none fetched fetched' keep f h =
      let same : fetched ≡ fetched' = cc in rw same at f
  match_namespace-IsFetched (some s) fetched fetched' keep f h =
      elim (Bool-cases (is_nil s.match_names || matches_name s.match_names namespace)) [
        | inl matched ↦
            match_labels-IsFetched s.match_labels fetched fetched' keep f
              (rw (matched, match_namespace) at h)
        | inr other ↦
            let unchanged : ◌≡◌ {A = Outcome (Bool × Option Labels)} (ok (false, fetched))
                (ok (keep, fetched')) =
              rw (other, match_namespace) at h in
            let same : fetched ≡ fetched' = cc in rw same at f
      ]

  match_namespace_alone :
      (selector : Option SelectorNamespace) (fetched : Option Labels)
      → IsFetched fetched
      → (match_namespace cluster namespace selector fetched >>= λ (keep, _). ok keep)
        ≡ match_alone selector
  unfolding match_namespace match_alone
  match_namespace_alone none fetched f = refl
  match_namespace_alone (some s) fetched f =
      elim (Bool-cases (is_nil s.match_names || matches_name s.match_names namespace)) [
        | inl matched ↦ rw matched (match_labels_alone s.match_labels fetched f)
        | inr other ↦ rw other
      ]

  -- The rest of the loop, as the loop runs it and as each policy's own round does.
  abbrev Rest : Type 0
  Rest = Outcome (List CertificateRequestPolicy)

  one_round :
      (p : CertificateRequestPolicy) (m : Outcome (Bool × Option Labels))
      (loop : Option Labels → Rest) (rest : Rest)
      → ((keep : Bool) (fetched : Option Labels) → m ≡ ok (keep, fetched) → loop fetched ≡ rest)
      → (m >>= λ (keep, fetched). (loop fetched >>= λ kept. ok (if keep then p ∷ kept else kept)))
        ≡ ((m >>= λ (keep, _). ok keep) >>= λ keep.
            (rest >>= λ kept. ok (if keep then p ∷ kept else kept)))
  one_round p (ok (keep, fetched)) loop rest h = rw (h keep fetched refl)
  one_round p (err e) loop rest h = refl
  one_round p panic loop rest h = refl

  namespace_loop-eq-filter_each :
      (fetched : Option Labels) (policies : List CertificateRequestPolicy)
      → IsFetched fetched
      → namespace_loop cluster namespace fetched policies
        ≡ filter_each (λ p. match_alone p.spec.selector.namespace) policies
  unfolding namespace_loop filter_each
  namespace_loop-eq-filter_each fetched [] f = refl
  namespace_loop-eq-filter_each fetched (p ∷ policies) f =
      one_round p (match_namespace cluster namespace p.spec.selector.namespace fetched)
        (λ fetched'. namespace_loop cluster namespace fetched' policies)
        (filter_each (λ q. match_alone q.spec.selector.namespace) policies)
        (λ keep fetched' h.
          namespace_loop-eq-filter_each fetched' policies
            (match_namespace-IsFetched p.spec.selector.namespace fetched fetched' keep f h))
      ∙ rw (match_namespace_alone p.spec.selector.namespace fetched f)

  match_labels_iff :
      (wanted : Option Labels)
      → ((match_labels cluster namespace wanted none >>= λ (keep, _). ok keep) ≡ ok true)
        ↔ LabelsHold cluster namespace wanted
  unfolding match_labels namespace_labels
  match_labels_iff none = (λ _. tt, λ _. refl)
  match_labels_iff (some wanted) = (to, from)
    where
      to :
          (match_labels cluster namespace (some wanted) none >>= λ (keep, _). ok keep) ≡ ok true
          → LabelsHold cluster namespace (some wanted)
      to h =
          let ((keep, fetched), matched, kept) =
            >>=-eq-ok (match_labels cluster namespace (some wanted) none) _ h in
          let (labels, got, h') = >>=-eq-ok (namespace_labels cluster namespace none) _ matched in
          let (selector, parsed, h'') = >>=-eq-ok (wrap _ (cluster.label_selector wanted)) _ h' in
          (
            labels,
            selector,
            get_of_labels labels got,
            (wrap-eq-ok_iff _ (cluster.label_selector wanted) selector).0 parsed,
            (cc),
          )

      from :
          LabelsHold cluster namespace (some wanted)
          → (match_labels cluster namespace (some wanted) none >>= λ (keep, _). ok keep) ≡ ok true
      from (labels, selector, got, parsed, holds) = rw (namespace_labels, got, parsed) (ap ok holds)

  -- The test of the names.
  names_iff :
      (names : List String)
      → ((is_nil names || matches_name names namespace) ≡ true)
        ↔ ((names ≡ []) ⊎ Any (λ name. TextMatches name namespace) names)
  names_iff [] = (λ _. inl refl, λ _. refl)
  names_iff (n ∷ names) =
      let (sound, complete) = matches_name_iff (n ∷ names) namespace in
      (λ h. inr (sound h), λ h. elim h [ inl e ↦ cc | inr m ↦ complete m ])

  match_alone_iff :
      (selector : Option SelectorNamespace)
      → (match_alone selector ≡ ok true) ↔ SelectsNamespace cluster namespace selector
  unfolding match_alone match_namespace
  match_alone_iff none = (λ _. tt, λ _. refl)
  match_alone_iff (some s) =
      let (names_to, names_from) = names_iff s.match_names in
      let (labels_to, labels_from) = match_labels_iff s.match_labels in
      elim (Bool-cases (is_nil s.match_names || matches_name s.match_names namespace)) [
        | inl matched ↦ rw matched (λ h. (names_to matched, labels_to h), λ (_, l). labels_from l)
        | inr other ↦ rw other (λ h. cc, λ (n, _). absurd (false≢true (sym other ∙ names_from n)))
      ]

-- `SelectorNamespace` answers as if it fetched the namespace's labels anew for each policy that
-- needs them: fetching them once changes nothing.
pub selector_namespace-eq-filter_each :
    (cluster : Cluster) (request : CertificateRequest) (policies : List CertificateRequestPolicy)
    → selector_namespace cluster request policies
      ≡ filter_each (λ p. match_alone cluster request.namespace p.spec.selector.namespace) policies
unfolding selector_namespace
selector_namespace-eq-filter_each cluster request policies =
    namespace_loop-eq-filter_each cluster request.namespace none policies tt

-- `SelectorNamespace` keeps the policies whose namespace selector matches.
pub In-selector_namespace :
    (cluster : Cluster) (request : CertificateRequest) (p : CertificateRequestPolicy)
    (policies kept : List CertificateRequestPolicy)
    → selector_namespace cluster request policies ≡ ok kept
    → In p kept
      ↔ (In p policies × SelectsNamespace cluster request.namespace p.spec.selector.namespace)
In-selector_namespace cluster request p policies kept h =
    let alone = sym (selector_namespace-eq-filter_each cluster request policies) ∙ h in
    let (to, from) = In-filter_each _ p policies kept alone in
    let (sound, complete) = match_alone_iff cluster request.namespace p.spec.selector.namespace in
    (λ m. let (k, t) = to m in (k, sound t), λ (k, s). from (k, complete s))
