-- ===== src/Engine/Members.antt =====
-- The members of the own session in link/engine.go: the session, the table of peers, and
-- sessionPeerNbr, which only sessionMembershipChanged brings up to date.
pub mod Frame
pub mod Count
pub mod Sessions
pub mod Peers
pub mod Table
pub mod Client
pub mod Reachable
