-- ===== src/Lib.antt =====
-- approver-policy, a controller that approves or denies cert-manager's CertificateRequests by
-- CertificateRequestPolicy resources.
--
-- A review (pkg/internal/approver/manager) lists the policies, filters them by four predicates, and
-- runs every registered evaluator on each policy that is left until one policy is not denied. The
-- evaluators of this repository are those of the approvers `allowed` and `constraints`, which
-- pkg/registry holds. Policies are validated by the webhooks of the same approvers when they are
-- written to the API server (pkg/internal/webhook), which serves them with the certificate that
-- pkg/internal/webhook/tls keeps renewing. One controller reviews every undecided request and sends the
-- decision as a status patch; the other asks the registered reconcilers whether a policy is ready, and
-- records that in the policy's status, which the predicate Ready reads.
--
-- Files and what they model:
--   Wildcard             pkg/internal/util/wildcard.go: WildcardMatches, WildcardContains,
--                        WildcardSubset, matchRunes
--   Policy, Request      pkg/apis/policy/v1alpha1/types_certificaterequestpolicy.go, and the parts of
--                        cert-manager's CertificateRequest and Go's signing request that are read
--   Approver             pkg/approver: the interfaces Evaluator, Webhook, Reconciler and Interface
--   Allowed              pkg/internal/approver/allowed: Evaluate, Validate and the approver
--   Constraints          pkg/internal/approver/constraints: Evaluate, decodePublicKey, Validate and
--                        the approver
--   Predicate            pkg/internal/approver/manager/predicate/predicate.go: Ready,
--                        SelectorIssuerRef, SelectorNamespace, RBACBound
--   Manager              pkg/internal/approver/manager/review.go and pkg/approver/manager/manager.go:
--                        New and Review
--   Registry             pkg/registry/registry.go
--   Webhook              pkg/internal/webhook/validator.go, and the validator that webhook.go makes
--   Controllers          pkg/internal/controllers: Requests (certificaterequests.go), Policies
--                        (certificaterequestpolicies.go) with Watch for its goroutine, Patch
--                        (ssa_client), and Loop: the requests' controller with its events, its queue
--                        and the API server (Parties)
--   Tls                  pkg/internal/webhook/tls/tls.go: Renewal and Update for one certificate,
--                        System for Start and its goroutine
--   Startup              pkg/internal/cmd: the options and the command, with Register of
--                        pkg/internal/webhook and AddControllers of pkg/internal/controllers
--   Builtin              the registry as the packages' `init` functions fill it
--   Common, Field        shared helpers; the calls of apimachinery's field package
--   Library, Cluster     what the models take from other code: parameters
--   Tests                runs at small inputs, and each theorem at an input that meets its hypotheses
-- A component with theorems has them in modules below it: descriptions that do not mention the code
-- (Meaning, Permits, Satisfies, Selects) and the theorems that relate the code to them.
--
-- Conventions. A Go call ends in `ok` of a value, `err` of an error, or `panic`. A pointer is an
-- `Option`; a slice is a list, with nil told apart from empty only where the program does so. A map
-- is a list of its entries. Integers and durations are compared only, and so stand without bounds,
-- but for the subtraction of times, which keeps the range of a `time.Duration`; a string is a text
-- of Unicode characters, which covers the strings in valid UTF-8. Every loop is structural
-- recursion; the only fuel is that of `bit_length`, the number itself, which has at most as many
-- binary digits as its value. Locks make runs into sequences of calls.
--
-- Parameters. `Library` holds cert-manager's decoder of signing requests and the functions that
-- format values for messages, `Cluster` one answer of the API to each call within a review,
-- `AdmissionLibrary` the decoder of admission requests and the parser of label selectors,
-- `RequestController` and `PolicyController` what the controllers are given, `Authority` what
-- signing and writing one certificate comes to, `Platform` what the start-up calls answer and cobra makes of the arguments, and
-- `Setting` the queue of controller-runtime and the stored conditions; `IsQueue` says what the
-- queue keeps. Channels and `select` are steps of relations, in which every choice among what is
-- ready is a run. No theorem assumes anything of them but what its hypotheses say of the calls at
-- hand.
--
-- Not modelled: the registration of flags with cobra, logging, generated deep copies, fakes and the
-- integration tests.
pub mod Common
pub mod Wildcard
pub mod Policy
pub mod Request
pub mod Field
pub mod Library
pub mod Approver
pub mod Allowed
pub mod Constraints
pub mod Cluster
pub mod Predicate
pub mod Manager
pub mod Registry
pub mod Builtin
pub mod Webhook
pub mod Controllers
pub mod Tls
pub mod Startup
mod Tests
