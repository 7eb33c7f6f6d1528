-- ===== src/Eth.antt =====
-- libeth: work packages, miners and the farm that drives them.
pub mod Work
pub mod Epoch
pub mod Batch
pub mod Miner
pub mod Farm
