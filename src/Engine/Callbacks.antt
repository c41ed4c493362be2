-- ===== src/Engine/Callbacks.antt =====
-- What the callbacks for the tempo and for the transport tell the application, and what the state
-- that is published to it shows (link/engine.go, link/link.go).
pub mod Heard
pub mod Frame
pub mod Broadcasts
pub mod Sessions
pub mod Peers
pub mod Client
pub mod Reachable
