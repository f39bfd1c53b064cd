-- ===== src/Policy.antt =====
-- policy/Policy.h: what a task asks of a policy, and the policies.
pub mod Interface
pub mod Names
pub mod Policies
