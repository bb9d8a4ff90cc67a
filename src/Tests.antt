-- ===== src/Tests.antt =====
-- Runs of the models at concrete inputs, one for each theorem that has conditions.
pub mod Inputs
mod Routing
mod Spending
mod Serving
mod Books
mod Drain
mod Streaming
mod Guards
mod Scaling
mod Caching
mod Web
mod Remote
mod Shared
