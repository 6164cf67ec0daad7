-- ===== src/State.antt =====
-- The states of the two applications, and the events that the transport hands them.
pub mod Client
pub mod Server
use rdma_prototype.Base.{ℕ, List}

-- `transport::Event`
pub data Event : Type 0 where
  connected : Event
  received : List ℕ → Event
  sent : Event
  peer_closed : Event
