-- ===== src/Examples.antt =====
-- The decision services of the repository's examples: the two AuthZEN gateways, the one to the `opa`
-- and the other to the `cedar` program, and the mock PDP of the tests and demonstrations.
pub mod Http
pub mod Service
pub mod Opa
pub mod Cedar
pub mod MockPdp
pub mod Bounds
pub mod Replies
pub mod Grounds
pub mod CedarGrounds
pub mod Batches
pub mod EndToEnd
pub mod Singles
pub mod DenyList
pub mod Lanes
pub mod Verdicts
pub mod ExitCode
pub mod Review
pub mod Oversight
