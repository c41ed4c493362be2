-- ===== src/Engine.antt =====
-- link/engine.go and link/measurement.go: the session state machine. State holds the data, Hub the
-- timers, and one module each the sessions, the clock measurement, discovery, the client's commands
-- and the loop that serves them.
pub mod State
pub mod Hub
pub mod Session
pub mod Join
pub mod Measurement
pub mod Discovery
pub mod Client
pub mod Loop
pub mod Vote
pub mod Panics
pub mod Pacing
pub mod Sizes
pub mod Announcement
pub mod Messages
pub mod Callbacks
pub mod Api
pub mod Convergence
pub mod Members
