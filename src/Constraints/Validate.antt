-- ===== src/Constraints/Validate.antt =====
-- pkg/internal/approver/constraints/validation.go: the check of a policy's constraints at admission.
use cert_manager_approver_po.Common.{
  ℤ, pos, lt_ℤ, String, Bool, true, ◌||◌, Option, none, some, [], ◌∷◌, ◌++◌, Outcome, ok, is_nil,
  if◌then◌else◌, str_eq, ◌+++◌,
}
use cert_manager_approver_po.Field.{text, number, invalid, not_supported, ErrorList}
use cert_manager_approver_po.Policy.{ConstraintsPrivateKey, Constraints, CertificateRequestPolicy}
use cert_manager_approver_po.Approver.{WebhookValidationResponse}
use cert_manager_approver_po.Library.{Library}
use cert_manager_approver_po.Constraints.Evaluate.{rsa, ecdsa, ed25519, constraints_path, key_path}

abbrev pub is_known_algorithm : String → Bool
is_known_algorithm alg = str_eq alg rsa || str_eq alg ecdsa || str_eq alg ed25519

unfoldable pub known_algorithm_errors : String → ErrorList
known_algorithm_errors alg =
    if is_known_algorithm alg
    then []
    else not_supported (key_path ++ "algorithm" ∷ []) (text alg) (rsa ∷ ecdsa ∷ ed25519 ∷ []) ∷ []

-- A size that is given although the algorithm has only one.
unfoldable pub ed25519_size_errors : String → Option ℤ → ErrorList
ed25519_size_errors name none = []
ed25519_size_errors name (some size) =
    invalid (key_path ++ name ∷ []) (number size)
      (name +++ " cannot be defined with algorithm constraint Ed25519")
    ∷ []

unfoldable pub algorithm_errors : Option String → Option ℤ → Option ℤ → ErrorList
algorithm_errors none max_size min_size = []
algorithm_errors (some alg) max_size min_size =
    known_algorithm_errors alg
    ++ (if str_eq alg ed25519
        then ed25519_size_errors "maxSize" max_size ++ ed25519_size_errors "minSize" min_size
        else [])

unfoldable pub size_errors : String → Option ℤ → ErrorList
size_errors name none = []
size_errors name (some size) =
    if lt_ℤ size (pos 0) || lt_ℤ (pos 8192) size
    then invalid (key_path ++ name ∷ []) (number size) "must be between 0 and 8192 inclusive" ∷ []
    else []

unfoldable pub size_order_errors : Option ℤ → Option ℤ → ErrorList
size_order_errors none min_size = []
size_order_errors (some max_size) none = []
size_order_errors (some max_size) (some min_size) =
    if lt_ℤ max_size min_size
    then invalid (key_path ++ "maxSize" ∷ []) (number max_size)
        "maxSize must be the same value as minSize or larger"
      ∷ []
    else []

unfoldable pub key_errors : Option ConstraintsPrivateKey → ErrorList
key_errors none = []
key_errors (some key) =
    algorithm_errors key.algorithm key.max_size key.min_size
    ++ (size_errors "maxSize" key.max_size
        ++ (size_errors "minSize" key.min_size ++ size_order_errors key.max_size key.min_size))

module _ (library : Library) where
  open library use {duration_string}

  unfoldable pub duration_order_errors : Option ℤ → Option ℤ → ErrorList
  duration_order_errors none min = []
  duration_order_errors (some max) none = []
  duration_order_errors (some max) (some min) =
      if lt_ℤ max min
      then invalid (constraints_path ++ "maxDuration" ∷ []) (text (duration_string max))
          "maxDuration must be the same value as minDuration or larger"
        ∷ []
      else []

  unfoldable pub duration_errors : String → Option ℤ → ErrorList
  duration_errors name none = []
  duration_errors name (some duration) =
      if lt_ℤ duration (pos 0)
      then invalid (constraints_path ++ name ∷ []) (text (duration_string duration))
          (name +++ " must be a value greater or equal to 0")
        ∷ []
      else []

  abbrev pub constraint_errors : Constraints → ErrorList
  constraint_errors c =
      key_errors c.private_key
      ++ (duration_order_errors c.max_duration c.min_duration
          ++ (duration_errors "maxDuration" c.max_duration
              ++ duration_errors "minDuration" c.min_duration))

  unfoldable pub validate_constraints : Option Constraints → WebhookValidationResponse
  validate_constraints none = record { allowed = true; errors = [] }
  validate_constraints (some c) = record {
    allowed = is_nil (constraint_errors c);
    errors = constraint_errors c;
  }

  -- `Validate`
  unfoldable pub validate : CertificateRequestPolicy → Outcome WebhookValidationResponse
  unfolding validate_constraints
  validate policy = ok (validate_constraints policy.spec.constraints)
