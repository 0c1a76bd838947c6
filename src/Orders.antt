-- ===== src/Orders.antt =====
-- grpc-service/order-management-server: the order service.
pub mod Server
pub mod Search
pub mod Update
pub mod Process
pub mod Reachable
pub mod Main
pub mod Client
