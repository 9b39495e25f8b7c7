-- ===== src/Constraints/Admission.antt =====
-- pkg/internal/approver/constraints/validation.go: what constraints must meet to be admitted.
use mathlib.Core.Bool.{false≢true}
use cert_manager_approver_po.Common.{
  ℤ, pos, ◌≤ℤ◌, String, ◌≡◌, refl, sym, ◌∙◌, ◌↔◌, ◌⊎◌, inl, inr, true, false, Bool-cases, Option,
  none, some, [], ◌++◌, ok, append-nil_iff, is_nil_iff, iff_trans, if◌then◌else◌, arith, str_eq,
  str_eq_iff,
}
use cert_manager_approver_po.Policy.{ConstraintsPrivateKey, Constraints, CertificateRequestPolicy}
use cert_manager_approver_po.Approver.{WebhookValidationResponse}
use cert_manager_approver_po.Library.{Library}
use cert_manager_approver_po.Constraints.Evaluate.{rsa, ecdsa, ed25519}
use cert_manager_approver_po.Constraints.Validate.{
  known_algorithm_errors, ed25519_size_errors, algorithm_errors, size_errors, size_order_errors,
  key_errors, duration_order_errors, duration_errors, constraint_errors, validate_constraints,
  validate,
}

abbrev pub IsKnown : String → Type 0
IsKnown alg = (alg ≡ rsa) ⊎ ((alg ≡ ecdsa) ⊎ (alg ≡ ed25519))

-- Ed25519 keys have one size, so no bound on it may be given.
abbrev pub HasAlgorithm : Option String → Option ℤ → Option ℤ → Type 0
HasAlgorithm none max_size min_size = Unit
HasAlgorithm (some alg) max_size min_size =
    IsKnown alg × (alg ≡ ed25519 → (max_size ≡ none) × (min_size ≡ none))

abbrev pub IsSize : Option ℤ → Type 0
IsSize none = Unit
IsSize (some size) = (pos 0 ≤ℤ size) × (size ≤ℤ pos 8192)

abbrev pub IsDuration : Option ℤ → Type 0
IsDuration none = Unit
IsDuration (some duration) = pos 0 ≤ℤ duration

-- The maximum comes first.
abbrev pub IsOrdered : Option ℤ → Option ℤ → Type 0
IsOrdered none low = Unit
IsOrdered (some high) none = Unit
IsOrdered (some high) (some low) = low ≤ℤ high

abbrev pub IsKeyConstraint : Option ConstraintsPrivateKey → Type 0
IsKeyConstraint none = Unit
IsKeyConstraint (some key) =
    HasAlgorithm key.algorithm key.max_size key.min_size
    × IsSize key.max_size
    × IsSize key.min_size
    × IsOrdered key.max_size key.min_size

abbrev pub IsConsistent : Option Constraints → Type 0
IsConsistent none = Unit
IsConsistent (some c) =
    IsKeyConstraint c.private_key
    × IsOrdered c.max_duration c.min_duration
    × IsDuration c.max_duration
    × IsDuration c.min_duration

known_algorithm_errors_iff : (alg : String) → (known_algorithm_errors alg ≡ []) ↔ IsKnown alg
unfolding known_algorithm_errors
known_algorithm_errors_iff alg =
    ground (arith, str_eq_iff alg rsa, str_eq_iff alg ecdsa, str_eq_iff alg ed25519)

ed25519_size_errors_iff :
    (name : String) (size : Option ℤ) → (ed25519_size_errors name size ≡ []) ↔ (size ≡ none)
unfolding ed25519_size_errors
ed25519_size_errors_iff name none = (λ _. refl, λ _. refl)
ed25519_size_errors_iff name (some size) = (λ h. cc, λ h. cc)

size_errors_iff : (name : String) (size : Option ℤ) → (size_errors name size ≡ []) ↔ IsSize size
unfolding size_errors
size_errors_iff name none = (λ _. tt, λ _. refl)
size_errors_iff name (some size) = ground arith

size_order_errors_iff :
    (high low : Option ℤ) → (size_order_errors high low ≡ []) ↔ IsOrdered high low
unfolding size_order_errors
size_order_errors_iff none low = (λ _. tt, λ _. refl)
size_order_errors_iff (some high) none = (λ _. tt, λ _. refl)
size_order_errors_iff (some high) (some low) = ground arith

algorithm_errors_iff :
    (alg : Option String) (max_size min_size : Option ℤ)
    → (algorithm_errors alg max_size min_size ≡ []) ↔ HasAlgorithm alg max_size min_size
unfolding algorithm_errors
algorithm_errors_iff none max_size min_size = (λ _. tt, λ _. refl)
algorithm_errors_iff (some alg) max_size min_size =
    append-nil_iff (known_algorithm_errors_iff alg) (sizes (Bool-cases (str_eq alg ed25519)))
  where
    both :
        (ed25519_size_errors "maxSize" max_size ++ ed25519_size_errors "minSize" min_size ≡ [])
        ↔ ((max_size ≡ none) × (min_size ≡ none))
    both =
        append-nil_iff (ed25519_size_errors_iff "maxSize" max_size)
          (ed25519_size_errors_iff "minSize" min_size)

    sizes :
        (str_eq alg ed25519 ≡ true) ⊎ (str_eq alg ed25519 ≡ false)
        → ((if str_eq alg ed25519
              then ed25519_size_errors "maxSize" max_size ++ ed25519_size_errors "minSize" min_size
              else [])
            ≡ [])
          ↔ (alg ≡ ed25519 → (max_size ≡ none) × (min_size ≡ none))
    sizes (inl same) = rw same (λ h _. both.0 h, λ h. both.1 (h ((str_eq_iff alg ed25519).0 same)))
    sizes (inr other) =
        rw other (λ _ e. absurd (false≢true (sym other ∙ (str_eq_iff alg ed25519).1 e)), λ _. refl)

key_errors_iff : (key : Option ConstraintsPrivateKey) → (key_errors key ≡ []) ↔ IsKeyConstraint key
unfolding key_errors
key_errors_iff none = (λ _. tt, λ _. refl)
key_errors_iff (some key) =
    iff_trans
      (append-nil_iff (algorithm_errors_iff key.algorithm key.max_size key.min_size) (
        append-nil_iff (size_errors_iff "maxSize" key.max_size) (
          append-nil_iff (size_errors_iff "minSize" key.min_size)
            (size_order_errors_iff key.max_size key.min_size))))
      (λ (a, (h, (l, o))). (a, h, l, o), λ (a, h, l, o). (a, (h, (l, o))))

module _ (library : Library) where
  duration_order_errors_iff :
      (high low : Option ℤ) → (duration_order_errors library high low ≡ []) ↔ IsOrdered high low
  unfolding duration_order_errors
  duration_order_errors_iff none low = (λ _. tt, λ _. refl)
  duration_order_errors_iff (some high) none = (λ _. tt, λ _. refl)
  duration_order_errors_iff (some high) (some low) = ground arith

  duration_errors_iff :
      (name : String) (duration : Option ℤ)
      → (duration_errors library name duration ≡ []) ↔ IsDuration duration
  unfolding duration_errors
  duration_errors_iff name none = (λ _. tt, λ _. refl)
  duration_errors_iff name (some duration) = ground arith

  constraint_errors_iff :
      (c : Constraints) → (constraint_errors library c ≡ []) ↔ IsConsistent (some c)
  constraint_errors_iff c =
      iff_trans
        (append-nil_iff (key_errors_iff c.private_key) (
          append-nil_iff (duration_order_errors_iff c.max_duration c.min_duration) (
            append-nil_iff (duration_errors_iff "maxDuration" c.max_duration)
              (duration_errors_iff "minDuration" c.min_duration))))
        (λ (k, (o, (h, l))). (k, o, h, l), λ (k, o, h, l). (k, (o, (h, l))))

  validate_constraints_iff :
      (c : Option Constraints)
      → (((validate_constraints library c).allowed ≡ true) ↔ IsConsistent c)
        × (((validate_constraints library c).allowed ≡ true)
            ↔ ((validate_constraints library c).errors ≡ []))
  unfolding validate_constraints
  validate_constraints_iff none = ((λ _. tt, λ _. refl), (λ _. refl, λ _. refl))
  validate_constraints_iff (some c) = (
    iff_trans (is_nil_iff (constraint_errors library c)) (constraint_errors_iff c),
    is_nil_iff (constraint_errors library c),
  )

  -- The validation returns a response for every policy. It allows the policy exactly when its
  -- constraints are consistent: a known algorithm, no sizes with Ed25519, sizes from 0 to 8192,
  -- no negative duration, and no maximum below its minimum. It allows it exactly when it returns no
  -- errors.
  pub validate-IsConsistent_iff :
      (policy : CertificateRequestPolicy)
      → (r : WebhookValidationResponse) × (validate library policy ≡ ok r)
        × ((r.allowed ≡ true) ↔ IsConsistent policy.spec.constraints)
        × ((r.allowed ≡ true) ↔ (r.errors ≡ []))
  unfolding validate
  validate-IsConsistent_iff policy =
      let (consistent, clean) = validate_constraints_iff policy.spec.constraints in
      (validate_constraints library policy.spec.constraints, refl, consistent, clean)
