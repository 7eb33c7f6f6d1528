-- ===== src/Api.antt =====
-- libapi/ApiServer.cpp: the server of the API, which changes the farm and the pool manager on request.
pub mod Requests
pub mod Methods
pub mod Access
pub mod Locks
pub mod Password
pub mod Receiving
pub mod ReadOnly
