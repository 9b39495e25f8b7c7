-- ===== src/Constraints/Evaluate.antt =====
-- pkg/internal/approver/constraints/evaluator.go.
use cert_manager_approver_po.Common.{
  ℕ, zero, suc, ◌/◌, ◌==◌, ℤ, pos, negsuc, lt_ℤ, String, Bool, not, Option, none, some, [], ◌∷◌,
  ◌++◌, Outcome, ok, err, Error, ◌>>=◌, if◌then◌else◌, str_eq, ◌+++◌,
}
use cert_manager_approver_po.Field.{FieldPath, text, invalid, ErrorList}
use cert_manager_approver_po.Policy.{ConstraintsPrivateKey, Constraints, CertificateRequestPolicy}
use cert_manager_approver_po.Request.{
  CertificateRequest, PublicKey, rsa_pointer, ecdsa_pointer, ed25519_pointer, other_type,
}
use cert_manager_approver_po.Approver.{EvaluationResponse, denied, not_denied}
use cert_manager_approver_po.Library.{Library}

-- `cmapi.RSAKeyAlgorithm` and its like
abbrev pub rsa : String
rsa = "RSA"

abbrev pub ecdsa : String
ecdsa = "ECDSA"

abbrev pub ed25519 : String
ed25519 = "Ed25519"

-- The number of binary digits, as `big.Int.BitLen`. The fuel is the number itself.
unfoldable pub bit_length : ℕ → ℕ → ℕ
bit_length zero n = 0
bit_length (suc fuel) n = let rest = bit_length fuel (n / 2) in if n == 0 then 0 else suc rest

unfoldable pub bit_len : ℕ → ℕ
unfolding bit_length
bit_len n = bit_length n n

-- `decodePublicKey`: the algorithm and the size of the key.
unfoldable pub decode_public_key : PublicKey → Outcome (String × ℤ)
decode_public_key (rsa_pointer n) = ok (rsa, pos (bit_len n))
decode_public_key (ecdsa_pointer bits) = ok (ecdsa, pos bits)
decode_public_key ed25519_pointer = ok (ed25519, negsuc 0)
decode_public_key (other_type name) = err (Error.message ("unrecognised public key type " +++ name))

abbrev pub constraints_path : FieldPath
constraints_path = "spec" ∷ "constraints" ∷ []

abbrev pub key_path : FieldPath
key_path = "spec" ∷ "constraints" ∷ "privateKey" ∷ []

-- A maximum that is less than the value, and a minimum that is greater.
abbrev pub is_less : ℤ → ℤ → Bool
is_less bound value = lt_ℤ bound value

abbrev pub is_greater : ℤ → ℤ → Bool
is_greater bound value = lt_ℤ value bound

module _ (library : Library) where
  open library use {decode_csr, aggregate_error, duration_string, duration_pointer_string, itoa}

  -- The bound on the duration, where there is one, in the direction that `beyond` tests.
  unfoldable pub check_duration : String → (ℤ → ℤ → Bool) → Option ℤ → Option ℤ → ErrorList
  check_duration name beyond none requested = []
  check_duration name beyond (some bound) none =
      invalid (constraints_path ++ name ∷ []) (text (duration_pointer_string none))
        (duration_string bound)
      ∷ []
  check_duration name beyond (some bound) (some requested) =
      if beyond bound requested
      then invalid (constraints_path ++ name ∷ []) (text (duration_string requested))
          (duration_string bound)
        ∷ []
      else []

  unfoldable pub check_algorithm : Option String → String → ErrorList
  check_algorithm none alg = []
  check_algorithm (some wanted) alg =
      if not (str_eq wanted alg)
      then invalid (key_path ++ "algorithm" ∷ []) (text alg) wanted ∷ []
      else []

  unfoldable pub check_size : String → (ℤ → ℤ → Bool) → Option ℤ → ℤ → ErrorList
  check_size name beyond none size = []
  check_size name beyond (some bound) size =
      if beyond bound size
      then invalid (key_path ++ name ∷ []) (text (itoa size)) (itoa bound) ∷ []
      else []

  -- The algorithm and size of the key in the request's encoded signing request.
  abbrev pub read_key : CertificateRequest → Outcome (String × ℤ)
  read_key request = do csr ← decode_csr request.request; decode_public_key csr.public_key

  unfoldable pub check_private_key :
      Option ConstraintsPrivateKey → CertificateRequest → Outcome ErrorList
  check_private_key none request = ok []
  check_private_key (some key) request = do
    (alg, size) ← read_key request
    ok (
        check_algorithm key.algorithm alg
        ++ (check_size "maxSize" is_less key.max_size size
            ++ check_size "minSize" is_greater key.min_size size))

  abbrev pub respond : ErrorList → EvaluationResponse
  respond [] = record { result = not_denied; message = "" }
  respond (e ∷ el) = record { result = denied; message = aggregate_error (e ∷ el) }

  unfoldable pub evaluate_constraints :
      Option Constraints → CertificateRequest → Outcome EvaluationResponse
  evaluate_constraints none request = ok (record { result = not_denied; message = "" })
  evaluate_constraints (some c) request = do
    let max = check_duration "maxDuration" is_less c.max_duration request.duration
    let min = check_duration "minDuration" is_greater c.min_duration request.duration
    key ← check_private_key c.private_key request
    ok (respond (max ++ (min ++ key)))

  -- `Evaluate`
  unfoldable pub evaluate :
      CertificateRequestPolicy → CertificateRequest → Outcome EvaluationResponse
  unfolding evaluate_constraints
  evaluate policy request = evaluate_constraints policy.spec.constraints request
