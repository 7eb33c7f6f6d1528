-- ===== src/Pool.antt =====
-- libpool: the pools' addresses, the clients' base class and the manager of the connections.
pub mod Scheme
pub mod Uri
pub mod UrlCode
pub mod Host
pub mod Session
pub mod JsonCpp
pub mod Lines
pub mod Manager
pub mod Simulation
pub mod Stratum
pub mod Getwork
