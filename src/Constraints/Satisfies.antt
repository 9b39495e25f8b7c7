-- ===== src/Constraints/Satisfies.antt =====
-- pkg/internal/approver/constraints/evaluator.go: what it is for a request to satisfy a policy's
-- constraints, and each check against it.
use cert_manager_approver_po.Common.{
  ◌≤ℤ◌, ℤ, String, ◌≡◌, refl, ◌↔◌, Option, none, some, [], Outcome, ok, err, panic, arith,
  str_eq_iff,
}
use cert_manager_approver_po.Policy.{ConstraintsPrivateKey, Constraints}
use cert_manager_approver_po.Request.{CertificateRequest}
use cert_manager_approver_po.Library.{Library}
use cert_manager_approver_po.Constraints.Evaluate.{
  check_duration, check_algorithm, check_size, is_less, is_greater, read_key,
}

-- Bounds are inclusive, and an absent bound holds of everything.
abbrev pub AtMost : ℤ → Option ℤ → Type 0
AtMost value none = Unit
AtMost value (some bound) = value ≤ℤ bound

abbrev pub AtLeast : ℤ → Option ℤ → Type 0
AtLeast value none = Unit
AtLeast value (some bound) = bound ≤ℤ value

-- A bound on the duration wants a duration to be requested.
abbrev pub HasAtMost : Option ℤ → Option ℤ → Type 0
HasAtMost requested none = Unit
HasAtMost none (some bound) = ⊥
HasAtMost (some value) (some bound) = value ≤ℤ bound

abbrev pub HasAtLeast : Option ℤ → Option ℤ → Type 0
HasAtLeast requested none = Unit
HasAtLeast none (some bound) = ⊥
HasAtLeast (some value) (some bound) = bound ≤ℤ value

abbrev pub IsAlgorithm : String → Option String → Type 0
IsAlgorithm alg none = Unit
IsAlgorithm alg (some wanted) = wanted ≡ alg

pub record KeyFits (key : ConstraintsPrivateKey) (alg : String) (size : ℤ) : Type 0 where
  pub algorithm : IsAlgorithm alg key.algorithm
  pub max_size : AtMost size key.max_size
  pub min_size : AtLeast size key.min_size

-- The key was read, and fits.
abbrev pub ReadFits : ConstraintsPrivateKey → Outcome (String × ℤ) → Type 0
ReadFits key (ok (alg, size)) = KeyFits key alg size
ReadFits key (err e) = ⊥
ReadFits key panic = ⊥

abbrev pub IsRead : Outcome (String × ℤ) → Type 0
IsRead (ok _) = Unit
IsRead (err e) = ⊥
IsRead panic = ⊥

module _ (library : Library) where
  abbrev pub SatisfiesKey : Option ConstraintsPrivateKey → CertificateRequest → Type 0
  SatisfiesKey none request = Unit
  SatisfiesKey (some key) request = ReadFits key (read_key library request)

  pub record SatisfiesAll (c : Constraints) (request : CertificateRequest) : Type 0 where
    pub max_duration : HasAtMost request.duration c.max_duration
    pub min_duration : HasAtLeast request.duration c.min_duration
    pub private_key : SatisfiesKey c.private_key request

  abbrev pub Satisfies : Option Constraints → CertificateRequest → Type 0
  Satisfies none request = Unit
  Satisfies (some c) request = SatisfiesAll c request

  -- The key can be read, where there are constraints on it.
  abbrev pub KeyIsRead : Option ConstraintsPrivateKey → CertificateRequest → Type 0
  KeyIsRead none request = Unit
  KeyIsRead (some key) request = IsRead (read_key library request)

  abbrev pub NeedsRead : Option Constraints → CertificateRequest → Type 0
  NeedsRead none request = Unit
  NeedsRead (some c) request = KeyIsRead c.private_key request

  pub check_max_iff :
      (name : String) (bound requested : Option ℤ)
      → (check_duration library name is_less bound requested ≡ []) ↔ HasAtMost requested bound
  unfolding check_duration
  check_max_iff name none requested = (λ h. tt, λ h. refl)
  check_max_iff name (some bound) none = (λ h. cc, λ h. absurd h)
  check_max_iff name (some bound) (some value) = ground arith

  pub check_min_iff :
      (name : String) (bound requested : Option ℤ)
      → (check_duration library name is_greater bound requested ≡ []) ↔ HasAtLeast requested bound
  unfolding check_duration
  check_min_iff name none requested = (λ h. tt, λ h. refl)
  check_min_iff name (some bound) none = (λ h. cc, λ h. absurd h)
  check_min_iff name (some bound) (some value) = ground arith

  pub check_algorithm_iff :
      (wanted : Option String) (alg : String)
      → (check_algorithm library wanted alg ≡ []) ↔ IsAlgorithm alg wanted
  unfolding check_algorithm
  check_algorithm_iff none alg = (λ h. tt, λ h. refl)
  check_algorithm_iff (some wanted) alg = ground (arith, str_eq_iff wanted alg)

  pub check_max_size_iff :
      (bound : Option ℤ) (size : ℤ)
      → (check_size library "maxSize" is_less bound size ≡ []) ↔ AtMost size bound
  unfolding check_size
  check_max_size_iff none size = (λ h. tt, λ h. refl)
  check_max_size_iff (some bound) size = ground arith

  pub check_min_size_iff :
      (bound : Option ℤ) (size : ℤ)
      → (check_size library "minSize" is_greater bound size ≡ []) ↔ AtLeast size bound
  unfolding check_size
  check_min_size_iff none size = (λ h. tt, λ h. refl)
  check_min_size_iff (some bound) size = ground arith
