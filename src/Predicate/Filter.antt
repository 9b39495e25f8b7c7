-- ===== src/Predicate/Filter.antt =====
-- A loop that keeps the elements for which a call answers true, and stops at the first error.
use cert_manager_approver_po.Common.{
  ◌≡◌, ◌↔◌, ◌⊎◌, inl, inr, Bool, true, false, List, [], ◌∷◌, ◌++◌, Outcome, ok, ◌>>=◌, >>=-eq-ok,
  if◌then◌else◌, Any,
}

-- `a` is an element of the list.
abbrev pub In : {A : Type 0} → A → List A → Type 0
In a xs = Any (λ x. a ≡ x) xs

module _ {A : Type 0} where
  unfoldable pub filter_each : (A → Outcome Bool) → List A → Outcome (List A)
  filter_each test [] = ok []
  filter_each test (x ∷ xs) = do
    keep ← test x
    rest ← filter_each test xs
    ok (if keep then x ∷ rest else rest)

  pub In-append : (a : A) (xs ys : List A) → In a (xs ++ ys) ↔ (In a xs ⊎ In a ys)
  In-append a [] ys = (λ h. inr h, λ h. elim h [ inl x ↦ absurd x | inr y ↦ y ])
  In-append a (x ∷ xs) ys =
      let (to, from) = In-append a xs ys in
      (
        λ h. elim h [
          | inl e ↦ inl (inl e)
          | inr m ↦ elim (to m) [ inl k ↦ inl (inr k) | inr k ↦ inr k ]
        ],
        λ h. elim h [
          | inl k ↦ elim k [ inl e ↦ inl e | inr m ↦ inr (from (inl m)) ]
          | inr m ↦ inr (from (inr m))
        ],
      )

  -- One round of the loop, which has answered `keep` at `x`.
  In-round :
      (test : A → Outcome Bool) (a x : A) (xs rest : List A) (keep : Bool)
      → test x ≡ ok keep
      → In a rest ↔ (In a xs × (test a ≡ ok true))
      → In a (if keep then x ∷ rest else rest) ↔ (In a (x ∷ xs) × (test a ≡ ok true))
  In-round test a x xs rest true answer (to, from) = (
    λ h. elim h [ inl e ↦ (inl e, rw e answer) | inr m ↦ let (k, t) = to m in (inr k, t) ],
    λ (h, t). elim h [ inl e ↦ inl e | inr m ↦ inr (from (m, t)) ],
  )
  In-round test a x xs rest false answer (to, from) = (
    λ m. let (k, t) = to m in (inr k, t),
    λ (h, t). elim h [
      | inl e ↦ let other : test a ≡ ok false = rw e answer in cc
      | inr m ↦ from (m, t)
    ],
  )

  -- The elements kept are those of the list at which the call answers true.
  pub In-filter_each :
      (test : A → Outcome Bool) (a : A) (xs kept : List A)
      → filter_each test xs ≡ ok kept
      → In a kept ↔ (In a xs × (test a ≡ ok true))
  unfolding filter_each
  In-filter_each test a [] kept h =
      let none_kept : kept ≡ [] = cc in rw none_kept (λ m. absurd m, λ (m, _). m)
  In-filter_each test a (x ∷ xs) kept h =
      let (keep, answer, h') = >>=-eq-ok (test x) _ h in
      let (rest, filtered, h'') = >>=-eq-ok (filter_each test xs) _ h' in
      let result : kept ≡ (if keep then x ∷ rest else rest) = cc in
      rw result (In-round test a x xs rest keep answer (In-filter_each test a xs rest filtered))
