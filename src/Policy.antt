-- ===== src/Policy.antt =====
-- pkg/apis/policy/v1alpha1/types_certificaterequestpolicy.go: the CertificateRequestPolicy resource.
-- A pointer is an `Option`, a map a list of its entries, and a slice whose nil value is not told
-- apart from the empty one a list. The type and list metadata are not part of the model.
use cert_manager_approver_po.Common.{String, Bool, Option, List, ℤ}

pub record AllowedStringSlice : Type 0 where
  pub values : Option (List String)
  pub required : Option Bool

pub record AllowedString : Type 0 where
  pub value : Option String
  pub required : Option Bool

pub record AllowedX509Subject : Type 0 where
  pub organizations : Option AllowedStringSlice
  pub countries : Option AllowedStringSlice
  pub organizational_units : Option AllowedStringSlice
  pub localities : Option AllowedStringSlice
  pub provinces : Option AllowedStringSlice
  pub street_addresses : Option AllowedStringSlice
  pub postal_codes : Option AllowedStringSlice
  pub serial_number : Option AllowedString

pub record Allowed : Type 0 where
  pub common_name : Option AllowedString
  pub dns_names : Option AllowedStringSlice
  pub ip_addresses : Option AllowedStringSlice
  pub uris : Option AllowedStringSlice
  pub email_addresses : Option AllowedStringSlice
  pub is_ca : Option Bool
  pub usages : Option (List String)
  pub subject : Option AllowedX509Subject

pub record ConstraintsPrivateKey : Type 0 where
  pub algorithm : Option String
  pub min_size : Option ℤ
  pub max_size : Option ℤ

-- A `metav1.Duration` is its number of nanoseconds.
pub record Constraints : Type 0 where
  pub min_duration : Option ℤ
  pub max_duration : Option ℤ
  pub private_key : Option ConstraintsPrivateKey

pub record PluginData : Type 0 where
  pub values : List (String × String)

pub record SelectorIssuerRef : Type 0 where
  pub name : Option String
  pub kind : Option String
  pub group : Option String

-- The program tells a nil map of labels from an empty one.
pub record SelectorNamespace : Type 0 where
  pub match_names : List String
  pub match_labels : Option (List (String × String))

pub record Selector : Type 0 where
  pub issuer_ref : Option SelectorIssuerRef
  pub namespace : Option SelectorNamespace

pub record Spec : Type 0 where
  pub allowed : Option Allowed
  pub constraints : Option Constraints
  pub plugins : List (String × PluginData)
  pub selector : Selector

-- A time is its number of nanoseconds.
pub record Condition : Type 0 where
  pub type : String
  pub status : String
  pub last_transition_time : Option ℤ
  pub reason : String
  pub message : String
  pub observed_generation : ℤ

pub record Status : Type 0 where
  pub conditions : List Condition

-- Of the object's metadata, the name and the generation.
pub record CertificateRequestPolicy : Type 0 where
  pub name : String
  pub generation : ℤ
  pub spec : Spec
  pub status : Status

-- `CertificateRequestPolicyConditionReady`
abbrev pub condition_ready : String
condition_ready = "Ready"
