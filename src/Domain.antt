-- ===== src/Domain.antt =====
-- The shared vocabulary of the runtime (src/milky_frog/domain): one child for each file or two.
pub mod Json
pub mod Message
pub mod Approval
pub mod Usage
pub mod Run
