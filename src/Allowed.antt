-- ===== src/Allowed.antt =====
-- pkg/internal/approver/allowed: the approver that lets a request have only the attributes that a
-- policy allows.
pub mod Evaluate
pub mod Permits
pub mod Checks
pub mod Decides
pub mod Validate
pub mod Admission
pub mod Interface
