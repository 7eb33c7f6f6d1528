-- ===== src/Cuda.antt =====
-- libcuda: the miner of a CUDA device.
pub mod State
pub mod Devices
pub mod Epoch
pub mod Search
pub mod Loop
