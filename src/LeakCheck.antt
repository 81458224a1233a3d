-- ===== src/LeakCheck.antt =====
-- app/leakcheck.py: the client of the breach-search service. Its parts, in the order of the file:
-- records and page parsing, the token bucket, the transport with its circuit breaker, and queries.
pub mod Records
pub mod Pacing
pub mod Transport
pub mod Query
