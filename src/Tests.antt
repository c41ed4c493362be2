-- ===== src/Tests.antt =====
-- Runs of the code at concrete inputs, and the theorems at inputs where their hypotheses hold.
mod Values
mod Musical
mod Messages
mod Session
mod Members
mod Loop
mod System
mod Client
mod Peers
