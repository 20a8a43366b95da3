-- ===== src/Streams.antt =====
-- Streams of the Preview 2 host, p2/io.go: adapters that make a synchronous reader or writer
-- nonblocking, and what the host's state keeps for each stream.
pub mod Input
pub mod Output
pub mod Probe
pub mod Permits
pub mod PermitRuns
pub mod Quotas
