-- ===== src/Manager.antt =====
-- pkg/internal/approver/manager/review.go and pkg/approver/manager/manager.go: the review of a
-- request against the policies that apply to it.
pub mod Review
pub mod Sound
pub mod Decides
pub mod Order
