-- ===== src/Broker.antt =====
-- src/trustplane_auth/broker.py: a request that a broker process signs.
pub mod Request
pub mod Answer
pub mod Client
pub mod Entries
pub mod Stream
pub mod Headers
pub mod Covered
pub mod Agreement
