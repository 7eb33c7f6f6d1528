-- ===== src/Eth/Farm.antt =====
-- libeth/Farm.h and libeth/Farm.cpp: the collection of miners, the work that it hands out, and its
-- telemetry. The state is in State, the operations in the modules after it.
pub mod State
pub mod Nonce
pub mod Lifecycle
pub mod Accounts
pub mod Collect
pub mod Shape
pub mod Pausing
