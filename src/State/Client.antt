-- ===== src/State/Client.antt =====
-- src/bin/clients.rs: `Message` and the fields of `Exchange`.
use rdma_prototype.Base.{ℕ, Bool, false, List, [], ◌∷◌}

pub data Message : Type 0 where
  hello ack : Message

-- `Message::bytes`
unfoldable pub bytes : Message → List ℕ
bytes hello = b'h' ∷ b'e' ∷ b'l' ∷ b'l' ∷ b'o' ∷ []
bytes ack = b'a' ∷ b'c' ∷ b'k' ∷ []

-- b"world"
abbrev pub world : List ℕ
world = b'w' ∷ b'o' ∷ b'r' ∷ b'l' ∷ b'd' ∷ []

pub record Exchange : Type 0 where
  pub connected : Bool
  pub hello_posted : Bool
  pub hello_completed : Bool
  pub world_received : Bool
  pub ack_posted : Bool
  pub ack_completed : Bool
  pub peer_closed : Bool

-- `Exchange::default`
abbrev pub default : Exchange
default = record {
  connected = false;
  hello_posted = false;
  hello_completed = false;
  world_received = false;
  ack_posted = false;
  ack_completed = false;
  peer_closed = false;
}
