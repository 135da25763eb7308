-- ===== src/Ipsec.antt =====
-- quansec/protocols/ipsec: what the collector records of the tunnels of strongSwan.
pub mod Sas
pub mod Collector
pub mod Established
mod Tests
