-- ===== src/Tests/Fixtures.antt =====
-- A decoder, a cluster, policies and requests for the tests.
use cert_manager_approver_po.Common.{
  ℕ, pos, String, true, false, none, some, List, [], ◌∷◌, Outcome, ok, err, Error, ◌+++◌,
}
use cert_manager_approver_po.Policy.{
  Allowed, Constraints, Status, Selector, CertificateRequestPolicy, condition_ready,
}
use cert_manager_approver_po.Request.{CertificateRequest, SubjectName, Csr, rsa_pointer}
use cert_manager_approver_po.Library.{Library}
use cert_manager_approver_po.Cluster.{Cluster}
use cert_manager_approver_po.Allowed.Evaluate.{empty_allowed}

abbrev pub empty_name : SubjectName
empty_name = record {
  common_name = "";
  organization = [];
  country = [];
  organizational_unit = [];
  locality = [];
  province = [];
  street_address = [];
  postal_code = [];
  serial_number = "";
}

-- A request for www.example.com by a user in Sweden.
abbrev pub web_csr : Csr String
web_csr = record {
  subject = record empty_name { common_name = "www.example.com"; country = "SE" ∷ [] };
  dns_names = "www.example.com" ∷ [];
  ip_addresses = [];
  uris = [];
  email_addresses = [];
  public_key = rsa_pointer 9;
}

abbrev pub decode_demo : List ℕ → Outcome (Csr String)
decode_demo [] = err (Error.reported "empty")
decode_demo (b ∷ bytes) = ok web_csr

abbrev pub demo : Library
demo = record {
  Url = String;
  decode_csr = decode_demo;
  aggregate_error = λ el. "errors";
  format_aggregate = λ el. "errors";
  ip_string = λ ip. "0.0.0.0";
  url_string = λ url. url;
  duration_string = λ d. "1h";
  duration_pointer_string = λ d. "nil";
  itoa = λ n. "0";
  quote = λ s. "\"" +++ s +++ "\"";
}

abbrev pub web_request : CertificateRequest
web_request = record {
  name = "web";
  namespace = "team-a";
  request = 1 ∷ [];
  duration = some (pos 60);
  is_ca = false;
  usages = [];
  issuer_ref = record { name = "ca"; kind = "Issuer"; group = "cert-manager.io" };
  username = "alice";
  uid = "1";
  groups = [];
  extra = [];
}

abbrev pub web_allowed : Allowed
web_allowed = record empty_allowed {
  common_name = some (record { value = some "*.example.com"; required = some true });
  dns_names = some (record { values = some ("*.example.com" ∷ []); required = none });
}

abbrev pub hour_constraints : Constraints
hour_constraints = record {
  min_duration = some (pos 10);
  max_duration = some (pos 90);
  private_key = none;
}

abbrev pub ready_status : Status
ready_status = record {
  conditions =
      record {
        type = condition_ready;
        status = "True";
        last_transition_time = none;
        reason = "Ready";
        message = "";
        observed_generation = pos 1;
      }
      ∷ [];
}

abbrev pub any_issuer : Selector
any_issuer = record {
  issuer_ref = some (record { name = none; kind = none; group = none });
  namespace = none;
}

abbrev pub web_policy : CertificateRequestPolicy
web_policy = record {
  name = "web";
  generation = pos 1;
  spec = record {
    allowed = some web_allowed;
    constraints = some hour_constraints;
    plugins = [];
    selector = any_issuer;
  };
  status = ready_status;
}

abbrev pub demo_cluster : Cluster
demo_cluster = record {
  list_policies = ok (web_policy ∷ []);
  get_namespace = λ name. ok [];
  create_review = λ review. ok true;
  label_selector = λ labels. ok (λ l. true);
}
