-- ===== src/Constraints/Readable.antt =====
-- pkg/internal/approver/constraints/evaluator.go: the requests that the evaluator can read.
use cert_manager_approver_po.Common.{◌≡◌, Option, none, some, ok}
use cert_manager_approver_po.Policy.{ConstraintsPrivateKey, Constraints}
use cert_manager_approver_po.Request.{
  CertificateRequest, Csr, PublicKey, rsa_pointer, ecdsa_pointer, ed25519_pointer, other_type,
}
use cert_manager_approver_po.Library.{Library}

-- An RSA, an ECDSA or an Ed25519 key.
abbrev pub IsKnownKey : PublicKey → Type 0
IsKnownKey (rsa_pointer n) = Unit
IsKnownKey (ecdsa_pointer bits) = Unit
IsKnownKey ed25519_pointer = Unit
IsKnownKey (other_type name) = ⊥

module _ (library : Library) where
  -- The signing request decodes to one with a known key.
  abbrev pub HasKnownKey : CertificateRequest → Type 0
  HasKnownKey request =
      (csr : Csr library.Url) × (library.decode_csr request.request ≡ ok csr)
      × IsKnownKey csr.public_key

  abbrev pub KeyIsReadable : Option ConstraintsPrivateKey → CertificateRequest → Type 0
  KeyIsReadable none request = Unit
  KeyIsReadable (some key) request = HasKnownKey request

  abbrev pub IsReadable : Option Constraints → CertificateRequest → Type 0
  IsReadable none request = Unit
  IsReadable (some c) request = KeyIsReadable c.private_key request
