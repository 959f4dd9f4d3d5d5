-- ===== src/Plakpacs.antt =====
-- plakpacs/plakpacs/plakpacs.hpp: binary serialization.
pub mod Platform
pub mod Types
pub mod Streams
pub mod Appenders
pub mod Serializer
pub mod Format
mod Runs
