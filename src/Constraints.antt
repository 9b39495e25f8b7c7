-- ===== src/Constraints.antt =====
-- pkg/internal/approver/constraints: the approver that holds a request to a policy's bounds on its
-- duration and on its private key.
pub mod Evaluate
pub mod KeySize
pub mod Satisfies
pub mod Decides
pub mod Readable
pub mod Validate
pub mod Admission
pub mod Interface
