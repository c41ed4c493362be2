-- ===== src/Engine/Messages.antt =====
-- That every message which the engine wants to send can be built: the identifiers that it holds have
-- eight bytes, in every state.
pub mod Frame
pub mod Tables
pub mod Sessions
pub mod Measuring
pub mod Peers
pub mod Client
pub mod Reachable
