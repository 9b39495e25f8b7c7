-- ===== src/Registry/Unique.antt =====
-- pkg/registry/registry.go: the names of the approvers in the registry.
use cert_manager_approver_po.Common.{
  ◌≡◌, refl, ◌↔◌, ◌⊎◌, inl, inr, String, true, Bool-cases, List, [], ◌∷◌, ◌++◌, ok, panic, Any,
  str_eq_iff, arith,
}
use cert_manager_approver_po.Approver.{Approver}
use cert_manager_approver_po.Registry.{Registry, has_name_of, has_conflict, store}

-- Some approver has the name.
abbrev pub HasName : String → List Approver → Type 0
HasName name approvers = Any (λ a. name ≡ a.name) approvers

-- No two approvers have the same name.
abbrev pub IsUnique : List Approver → Type 0
IsUnique [] = Unit
IsUnique (a ∷ approvers) = ¬ HasName a.name approvers × IsUnique approvers

-- Some approver of the first list has the name of one of the second.
abbrev pub Clashes : List Approver → List Approver → Type 0
Clashes registered approvers = Any (λ existing. HasName existing.name approvers) registered

has_name_of_iff :
    (existing : Approver) (approvers : List Approver)
    → (has_name_of existing approvers ≡ true) ↔ HasName existing.name approvers
unfolding has_name_of
has_name_of_iff existing [] = (λ h. cc, λ h. absurd h)
has_name_of_iff existing (a ∷ approvers) =
    grind (arith, str_eq_iff existing.name a.name, has_name_of_iff existing approvers)

has_conflict_iff :
    (registered approvers : List Approver)
    → (has_conflict registered approvers ≡ true) ↔ Clashes registered approvers
unfolding has_conflict
has_conflict_iff [] approvers = (λ h. cc, λ h. absurd h)
has_conflict_iff (e ∷ registered) approvers =
    grind (arith, has_name_of_iff e approvers, has_conflict_iff registered approvers)

HasName-append :
    (name : String) (xs ys : List Approver)
    → HasName name (xs ++ ys) ↔ (HasName name xs ⊎ HasName name ys)
HasName-append name [] ys = (λ h. inr h, λ h. elim h [ inl x ↦ absurd x | inr y ↦ y ])
HasName-append name (x ∷ xs) ys =
    let (to, from) = HasName-append name xs ys in
    (
      λ h. elim h [
        | inl e ↦ inl (inl e)
        | inr m ↦ elim (to m) [ inl k ↦ inl (inr k) | inr k ↦ inr k ]
      ],
      λ h. elim h [
        | inl k ↦ elim k [ inl e ↦ inl e | inr m ↦ inr (from (inl m)) ]
        | inr m ↦ inr (from (inr m))
      ],
    )

-- Two lists in a row have unique names if both have, and share none.
IsUnique-append :
    (xs ys : List Approver) → IsUnique (xs ++ ys) ↔ (IsUnique xs × IsUnique ys × ¬ Clashes xs ys)
IsUnique-append [] ys = (λ h. (tt, h, λ c. c), λ (_, h, _). h)
IsUnique-append (x ∷ xs) ys =
    let (to, from) = IsUnique-append xs ys in
    let (split, joined) = HasName-append x.name xs ys in
    (
      λ (n, h).
          let (u, v, c) = to h in
          (
            (λ m. n (joined (inl m)), u),
            v,
            λ d. elim d [ inl m ↦ n (joined (inr m)) | inr k ↦ c k ],
          ),
      λ ((n, u), v, c).
          (λ m. elim (split m) [ inl k ↦ n k | inr k ↦ c (inl k) ], from (u, v, λ k. c (inr k))),
    )

-- `Store` panics exactly when an approver to store has the name of one in the registry, and
-- otherwise puts the new approvers behind those in the registry.
pub store-Clashes :
    (r : Registry) (approvers : List Approver)
    → ((store r approvers ≡ panic) ↔ Clashes r.approvers approvers)
      × (¬ Clashes r.approvers approvers
          → store r approvers ≡ ok (record { approvers = r.approvers ++ approvers }))
unfolding store
store-Clashes r approvers =
    let (sound, complete) = has_conflict_iff r.approvers approvers in
    elim (Bool-cases (has_conflict r.approvers approvers)) [
      | inl clash ↦ rw clash ((λ _. sound clash, λ _. refl), λ n. absurd (n (sound clash)))
      | inr fresh ↦ rw fresh ((λ h. cc, λ c. let clash = complete c in cc), λ _. refl)
    ]

-- After a call of `Store` that returns on a registry with unique names, the names are unique
-- exactly when those of the approvers in that one call are: names within one call are not compared.
pub store-IsUnique_iff :
    (r s : Registry) (approvers : List Approver)
    → IsUnique r.approvers
    → store r approvers ≡ ok s
    → IsUnique s.approvers ↔ IsUnique approvers
store-IsUnique_iff r s approvers unique stored =
    let ((panics, _), appends) = store-Clashes r approvers in
    let (to, from) = IsUnique-append r.approvers approvers in
    let no_clash : ¬ Clashes r.approvers approvers =
      λ c. let stopped = (store-Clashes r approvers).0.1 c in cc in
    let appended = appends no_clash in
    let same : s ≡ record { approvers = r.approvers ++ approvers } = cc in
    rw same (λ h. (to h).1, λ h. from (unique, h, no_clash))
