-- ===== src/Controllers/Loop/Store.antt =====
-- pkg/internal/controllers/certificaterequests.go: the stored requests by their names, and those that
-- an event enqueues.
use cert_manager_approver_po.Common.{
  Bool, true, false, Bool-cases, if-cases, not, ◌&&◌, ◌||◌, none, some, List, [], ◌∷◌, ◌≡◌, ◌≢◌,
  refl, sym, ◌∙◌, ap, ◌↔◌, ◌⊎◌, inl, inr, if◌then◌else◌, str_eq, str_eq_iff,
}
use cert_manager_approver_po.Predicate.Filter.{In}
use cert_manager_approver_po.Controllers.Patch.{NamespacedName}
use cert_manager_approver_po.Controllers.Requests.{needs_review, undecided}
use cert_manager_approver_po.Controllers.Parties.{Stored, name_of, same_name, lookup, without, put}

both_true : (a b : Bool) → ((a && b) ≡ true) ↔ ((a ≡ true) × (b ≡ true))
both_true true b = (λ h. (refl, h), λ (_, h). h)
both_true false b = (λ h. cc, λ (h, _). h)

pub same_name_iff : (m n : NamespacedName) → (same_name m n ≡ true) ↔ (m ≡ n)
same_name_iff m n =
    let namespaces = str_eq_iff m.namespace n.namespace in
    let names = str_eq_iff m.name n.name in
    let (split, joined) = both_true (str_eq m.namespace n.namespace) (str_eq m.name n.name) in
    (
      λ h.
          let (a, b) = split h in
          let x = namespaces.0 a in
          let y = names.0 b in
          ap (λ z. record { namespace = z; name = m.name }) x
          ∙ ap (λ z. record { namespace = n.namespace; name = z }) y,
      λ h. joined (
        namespaces.1 (ap (λ (z : NamespacedName). z.namespace) h),
        names.1 (ap (λ (z : NamespacedName). z.name) h),
      ),
    )

pub lookup-name :
    (n : NamespacedName) (stored : List Stored) (r : Stored)
    → lookup n stored ≡ some r
    → name_of r ≡ n
unfolding lookup
lookup-name n [] r h = cc
lookup-name n (x ∷ stored) r h = elim (if-cases (same_name (name_of x) n) _ _ h) [
  | inl (same, found) ↦
      let e : x ≡ r = cc in sym (ap name_of e) ∙ (same_name_iff (name_of x) n).0 same
  | inr (_, later) ↦ lookup-name n stored r later
]

pub lookup-In :
    (n : NamespacedName) (stored : List Stored) (r : Stored)
    → lookup n stored ≡ some r
    → In r stored
unfolding lookup
lookup-In n [] r h = cc
lookup-In n (x ∷ stored) r h = elim (if-cases (same_name (name_of x) n) _ _ h) [
  | inl (_, found) ↦ inl cc
  | inr (_, later) ↦ inr (lookup-In n stored r later)
]

-- No request has the name any more.
without-name : (n : NamespacedName) (stored : List Stored) → lookup n (without n stored) ≡ none
unfolding lookup without
without-name n [] = refl
without-name n (x ∷ stored) = elim (Bool-cases (same_name (name_of x) n)) [
  | inl same ↦ rw same (without-name n stored)
  | inr other ↦ rw (other, without-name n stored) (rw other refl)
]

pub lookup-without :
    (n k : NamespacedName) (stored : List Stored) (r : Stored)
    → lookup n (without k stored) ≡ some r
    → lookup n stored ≡ some r
unfolding lookup without
lookup-without n k [] r h = h
lookup-without n k (x ∷ stored) r h = elim (Bool-cases (same_name (name_of x) k)) [
  | inl gone ↦
      let e : without k (x ∷ stored) ≡ without k stored = rw gone refl in
      let found : lookup n (without k stored) ≡ some r = sym (ap (lookup n) e) ∙ h in
      elim (Bool-cases (same_name (name_of x) n)) [
        | inl same ↦
            let names : k ≡ n =
              sym ((same_name_iff (name_of x) k).0 gone) ∙ (same_name_iff (name_of x) n).0 same in
            let absent = without-name n stored in
            let missing : lookup n (without k stored) ≡ none = rw names absent in cc
        | inr other ↦ rw other (lookup-without n k stored r found)
      ]
  | inr stays ↦
      let e : without k (x ∷ stored) ≡ x ∷ without k stored = rw stays refl in
      let found : lookup n (x ∷ without k stored) ≡ some r = sym (ap (lookup n) e) ∙ h in
      elim (if-cases (same_name (name_of x) n) _ _ found) [
        | inl (same, this) ↦ rw same this
        | inr (other, later) ↦ rw other (lookup-without n k stored r later)
      ]
]

pub lookup-put :
    (n : NamespacedName) (x : Stored) (stored : List Stored) (r : Stored)
    → lookup n (put x stored) ≡ some r
    → (r ≡ x) ⊎ ((name_of x ≢ n) × (lookup n stored ≡ some r))
unfolding lookup
lookup-put n x stored r h = elim (if-cases (same_name (name_of x) n) _ _ h) [
  | inl (_, found) ↦ inl cc
  | inr (other, later) ↦ inr (
    (λ e. let same = (same_name_iff (name_of x) n).1 e in cc),
    lookup-without n (name_of x) stored r later,
  )
]

either_decided : (a d : Bool) → (not a && not d) ≡ true → (a || d) ≡ false
either_decided true d h = cc
either_decided false true h = cc
either_decided false false h = refl

In-if :
    (b : Bool) (m n : NamespacedName) (names : List NamespacedName)
    → In n names
    → In n (if b then names else m ∷ names)
In-if true m n names h = h
In-if false m n names h = inr h

module _ (is_approved is_denied : Stored → Bool) where
  -- A stored request that is undecided is among those that an event enqueues.
  pub In-undecided :
      (n : NamespacedName) (stored : List Stored) (r : Stored)
      → lookup n stored ≡ some r
      → needs_review is_approved is_denied name_of r ≡ true
      → In n (undecided is_approved is_denied name_of stored)
  unfolding lookup undecided needs_review
  In-undecided n [] r h u = cc
  In-undecided n (x ∷ stored) r h u = elim (if-cases (same_name (name_of x) n) _ _ h) [
    | inl (same, found) ↦
        let e : x ≡ r = cc in
        let open_one : (is_approved x || is_denied x) ≡ false =
          either_decided (is_approved x) (is_denied x) (rw e u) in
        rw open_one (inl (sym ((same_name_iff (name_of x) n).0 same)))
    | inr (_, later) ↦
        In-if (is_approved x || is_denied x) (name_of x) n _ (In-undecided n stored r later u)
  ]
