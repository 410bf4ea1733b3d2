-- ===== src/Enrollment.antt =====
-- src/trustplane_auth/enrollment.py: the enrolment of a key with a control plane.
pub mod Validate
pub mod Challenge
pub mod Status
pub mod Environment
pub mod Http
pub mod Client
pub mod Timing
pub mod Termination
pub mod Completion
pub mod Gives
pub mod Awaited
pub mod Outcome
pub mod Calls
pub mod Attempts
pub mod Provider
pub mod Proofs
