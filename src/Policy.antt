-- ===== src/Policy.antt =====
-- pkg/policy: bucket policies. `Condition` models bucket-policy-condition.go and the other
-- children bucket-policy.go.
pub mod Condition
pub mod Statement
pub mod Match
pub mod Build
pub mod Remove
pub mod Append
pub mod Query
