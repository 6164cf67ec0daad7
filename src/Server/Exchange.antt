-- ===== src/Server/Exchange.antt =====
-- src/bin/server.rs: the methods of `Exchange`. An event that is refused leaves the state alone.
use rdma_prototype.Base.{ℕ, List, [], ◌∷◌, Bool, true, false, ◌&&◌, bytes_eq, if◌then◌else◌}
use rdma_prototype.State.{Event, connected, received, sent, peer_closed}
use rdma_prototype.State.Server.{Exchange, Phase, hello, reply, ack, done}
use rdma_prototype.Outcome.{Outcome, ok, err, unexpected_message}

-- b"hello"
abbrev pub hello_text : List ℕ
hello_text = b'h' ∷ b'e' ∷ b'l' ∷ b'l' ∷ b'o' ∷ []

-- b"ack"
abbrev pub ack_text : List ℕ
ack_text = b'a' ∷ b'c' ∷ b'k' ∷ []

-- b"world"
abbrev pub world_text : List ℕ
world_text = b'w' ∷ b'o' ∷ b'r' ∷ b'l' ∷ b'd' ∷ []

-- The inner `match self.phase`.
unfoldable pub on_message : Phase → List ℕ → Exchange → Outcome Exchange
on_message hello text s =
    if bytes_eq text hello_text
    then ok (record s { phase = reply })
    else err (unexpected_message hello text)
on_message ack text s =
    if bytes_eq text ack_text
    then ok (record s { phase = done })
    else err (unexpected_message ack text)
on_message phase text s = err (unexpected_message phase text)

unfoldable pub on_event : Exchange → Event → Outcome Exchange
unfolding on_message
on_event s connected = ok (record s { connected = true })
on_event s sent = ok (record s { sent = true })
on_event s peer_closed = ok (record s { peer_closed = true })
on_event s (received text) = on_message s.phase text s

abbrev pub is_done : Phase → Bool
is_done done = true
is_done _ = false

abbrev pub is_reply : Phase → Bool
is_reply reply = true
is_reply _ = false

unfoldable pub complete : Exchange → Bool
complete s = is_done s.phase && s.sent
