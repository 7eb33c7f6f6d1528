-- ===== src/Cl.antt =====
-- libcl: the miner of an OpenCL device.
pub mod State
pub mod Buffers
pub mod Dag
pub mod Identity
pub mod Devices
pub mod Epoch
pub mod Loop
