-- ===== src/Library.antt =====
-- What the program takes from code that is not in the repository, as the parameter of the models
-- that call it: cert-manager's decoder of signing requests, and the texts that other packages write.
use cert_manager_approver_po.Common.{ℕ, String, Option, List, ℤ, Outcome}
use cert_manager_approver_po.Request.{Csr}
use cert_manager_approver_po.Field.{ErrorList}

pub record Library : Type 1 where
  -- `url.URL`
  pub Url : Type 0
  -- `utilpki.DecodeX509CertificateRequestBytes`
  pub decode_csr : List ℕ → Outcome (Csr Url)
  -- `el.ToAggregate().Error()`
  pub aggregate_error : ErrorList → String
  -- `fmt.Sprintf("%s", el.ToAggregate())`, where the aggregate may be nil
  pub format_aggregate : ErrorList → String
  -- `net.IP.String`
  pub ip_string : List ℕ → String
  -- `url.URL.String`
  pub url_string : Url → String
  -- `time.Duration.String`
  pub duration_string : ℤ → String
  -- `metav1.Duration.String`, on a pointer that may be nil
  pub duration_pointer_string : Option ℤ → String
  -- `strconv.Itoa`
  pub itoa : ℤ → String
  -- the verb %q of `fmt.Sprintf`
  pub quote : String → String
