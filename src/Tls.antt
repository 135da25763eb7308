-- ===== src/Tls.antt =====
-- quansec/protocols/tls: the policy of the TLS data plane, and what is said of it.
pub mod Policy
pub mod Apply
pub mod Collector
pub mod Tailing
pub mod Transcript
pub mod Probe
pub mod Policies
pub mod Status
mod Tests
