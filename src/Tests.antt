-- ===== src/Tests.antt =====
-- Runs of the model on small inputs, and each theorem at an input that meets its hypotheses.
mod Fixtures
mod Wildcard
mod Allowed
mod Constraints
mod Manager
mod Registry
mod Webhook
mod Policies
mod Requests
mod Watch
mod Tls
mod Startup
mod Loop
mod Decisions
