-- ===== src/Pool/Stratum.antt =====
-- libpool/stratum/EthStratumClient.cpp: the client of a stratum pool.
pub mod State
pub mod Pleas
pub mod Sending
pub mod Connecting
pub mod Timer
pub mod Envelope
pub mod Login
pub mod Answers
pub mod Jobs
pub mod Notifications
pub mod Receiving
pub mod Submitting
pub mod Solutions
pub mod Nonce
pub mod Detection
pub mod Order
pub mod Deafness
