-- ===== src/Controllers.antt =====
-- pkg/internal/controllers: the two controllers, which review requests and keep the status of
-- policies, and the patches that they send.
pub mod Patch
pub mod Policies
pub mod Watch
pub mod Requests
pub mod Parties
pub mod Loop
