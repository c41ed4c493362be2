-- ===== src/Lib.antt =====
-- A Go client for Ableton Link: peers on one network share a tempo, a beat grid and a transport state.
-- The library models package link (directory link/) over the native natural numbers.
--
-- The parts, from the bottom up:
--   Base       shared data: integers, int64 with its wrap-around, lists, maps, Boolean tests
--   Float      float64 as a parameter (Float64), with the laws of IEEE 754 that proofs use (IsFloat64)
--   Exact      an executable arithmetic that satisfies these laws, for runs at concrete inputs
--   Clock      link/clock.go: Micros, llround, and the conversions from and to times (Clock.Wall)
--   Beats      link/beats.go: Beats in millionths, Phase, NextPhaseMatch, ClosestPhaseMatch
--   Timeline   link/tempo.go, link/ghostxform.go, link/timeline.go: tempo, clock transform, timelines
--   NodeId     link/nodeid.go: identifiers, their order and their text (NodeId.Text)
--   Wire       link/wire.go: payload entries, discovery and measurement messages
--   PeerState  link/peerstate.go: what a peer advertises, with its entries
--   Engine     link/engine.go, link/measurement.go, and the commands and queries of link/link.go
--   Network    link/network.go: interfaces, sockets, receive loops and sending
--   Reporter   link/engine.go: the rate-limited log of failures to send
--   Link       link/link.go: New and Close, the callbacks (Link.Callbacks)
--   Logger     link/logger.go: the loggers, over a printf of the application's
--   Terminal   cmd/linkclient/main.go: the model of the terminal client, the figures of its view
--              (Terminal.View), the client with the engine behind it (Terminal.System), the
--              channel through which callbacks wake it (Terminal.Updates), and main (Terminal.Main)
--   Tests      runs at concrete inputs
-- Functions keep the source's names in snake case (NextPhaseMatch is next_phase_match), and records
-- its fields.
--
-- The engine is one goroutine that owns its state. Engine.State has the state as a record; every
-- handler is a function from state to state, and Engine.Loop.step is one round of the select in
-- `run`: the packets, tickers, commands and timers that arrive are events, whose order is arbitrary.
-- What the engine reads of the world is a parameter (World): the k-th clock reading, the k-th random
-- identifier, and the local addresses; `reads` and `draws` count what is used up. The random source
-- does not fail: rand.Read never returns an error since Go 1.24, and go.mod asks for a later one.
-- What it does to the world is the list `effects`: messages sent, callbacks called, and `panicked` for the panic of an
-- encoder. A division by zero is `none`. Maps are association lists; where the source iterates over a
-- map and takes the first hit, the model takes the first of the list.
--
-- int64 values are integers, and every operation that can overflow wraps. The loop of parseEntries
-- runs on fuel, the length of the payload: each round takes at least eight bytes
-- off it. `stuck` stands for a run out of fuel.
--
-- What the operating system answers when a node opens its sockets is a parameter too (Os), and the
-- receive loop and its consumer take turns in any order. Times are nanoseconds.
--
-- Not modelled: the buffers and options of the sockets (link/network.go,
-- link/multicast_*.go), which lines the engine logs, except for failures to send, the locks and the
-- start of the goroutines of link/link.go; of the terminal client, the parsing of flags, styles
-- and texts (cmd/linkclient). An engine's round is one step, so what a callback, or a client that it
-- wakes, reads while the round is under way is not modelled.
pub mod Base
pub mod Float
pub mod Exact
pub mod Clock
pub mod Beats
pub mod Timeline
pub mod NodeId
pub mod Wire
pub mod PeerState
pub mod Engine
pub mod Network
pub mod Reporter
pub mod Link
pub mod Logger
pub mod Terminal
pub mod Tests
