-- ===== src/Transcript.antt =====
-- src/trustplane_auth/transcript.py: a request's canonical transcript and its digest.
pub mod Data
pub mod Headers
pub mod Build
pub mod Lines
pub mod Allow
pub mod Select
pub mod Complete
pub mod Invariance
