-- ===== src/Pool/Manager.antt =====
-- libpool/PoolManager.h and libpool/PoolManager.cpp: the state, the operations, and one step function
-- over the events that reach the manager; then what holds of them.
pub mod State
pub mod Rotate
pub mod Handlers
pub mod Api
pub mod Timers
pub mod Step
pub mod Active
pub mod Removal
pub mod RoundRobin
pub mod Rounds
pub mod Jobs
pub mod Shutdown
