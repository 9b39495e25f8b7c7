-- ===== src/Request.antt =====
-- The parts of cert-manager's CertificateRequest and of Go's x509.CertificateRequest that
-- approver-policy reads.
use cert_manager_approver_po.Common.{ℕ, String, Bool, Option, List, ℤ}

pub record IssuerRef : Type 0 where
  pub name : String
  pub kind : String
  pub group : String

-- `request` holds the bytes of the encoded signing request, and `duration` nanoseconds.
pub record CertificateRequest : Type 0 where
  pub name : String
  pub namespace : String
  pub request : List ℕ
  pub duration : Option ℤ
  pub is_ca : Bool
  pub usages : List String
  pub issuer_ref : IssuerRef
  pub username : String
  pub uid : String
  pub groups : List String
  pub extra : List (String × List String)

pub record SubjectName : Type 0 where
  pub common_name : String
  pub organization : List String
  pub country : List String
  pub organizational_unit : List String
  pub locality : List String
  pub province : List String
  pub street_address : List String
  pub postal_code : List String
  pub serial_number : String

-- The dynamic type of the `interface{}` that holds a public key, with what is read of its value:
-- the modulus, the bit size of the curve, nothing, and the name of any other type.
pub data PublicKey : Type 0 where
  rsa_pointer : ℕ → PublicKey
  ecdsa_pointer : ℕ → PublicKey
  ed25519_pointer : PublicKey
  other_type : String → PublicKey

-- An address is a `net.IP`, its bytes; `Url` is the type of `url.URL`.
pub record Csr (Url : Type 0) : Type 0 where
  pub subject : SubjectName
  pub dns_names : List String
  pub ip_addresses : List (List ℕ)
  pub uris : List Url
  pub email_addresses : List String
  pub public_key : PublicKey
