-- ===== src/State/Server.antt =====
-- src/bin/server.rs: `Phase` and the fields of `Exchange`.
use rdma_prototype.Base.{Bool, false}

pub data Phase : Type 0 where
  hello reply ack done : Phase

pub record Exchange : Type 0 where
  pub phase : Phase
  pub connected : Bool
  pub sent : Bool
  pub peer_closed : Bool

-- `Exchange::new`
abbrev pub new : Exchange
new = record { phase = hello; connected = false; sent = false; peer_closed = false }
