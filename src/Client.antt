-- ===== src/Client.antt =====
-- core/src/detail/client_impl.hpp and client_impl.cpp: the client's worker, its commands and its
-- life cycle.
pub mod State
pub mod Command
pub mod Accounting
pub mod Record
pub mod Session
pub mod Worker
pub mod Lifecycle
pub mod Frame
pub mod Cases
pub mod Kept
pub mod Invariant
pub mod Counters
pub mod Faults
pub mod Storm
pub mod Arrival
pub mod Restart
pub mod Delivery
pub mod Silence
pub mod Control
pub mod Threads
pub mod Destroyer
pub mod Backoff
pub mod Calibrated
