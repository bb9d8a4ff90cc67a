-- ===== src/Service.antt =====
-- app/service.py: the service that puts the components together.
pub mod State
pub mod Failover
pub mod Handle
pub mod Stream
pub mod Scaling
pub mod Books
pub mod Drain
