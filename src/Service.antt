-- ===== src/Service.antt =====
-- server/src/adapter/grpc: the requests of the protocol, and the sweeper of inactive clients.
pub mod Status
pub mod Handlers
pub mod Requests
pub mod Sweeper
pub mod Runner
pub mod Startup
