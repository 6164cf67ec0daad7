-- ===== src/Client/Exchange.antt =====
-- src/bin/clients.rs: the methods of `Exchange`. An event that is refused leaves the state alone.
use rdma_prototype.Base.{Bool, true, not, ◌&&◌, ◌||◌, Option, none, some, bytes_eq, if◌then◌else◌}
use rdma_prototype.State.{Event, connected, received, sent, peer_closed}
use rdma_prototype.State.Client.{Exchange, Message, hello, ack, world}
use rdma_prototype.Outcome.{Outcome, ok, err, message, unexpected_reply}

unfoldable pub on_event : Exchange → Event → Outcome Exchange
on_event s connected = ok (record s { connected = true })
on_event s (received text) =
    if not s.hello_posted || s.world_received || not (bytes_eq text world)
    then err (unexpected_reply text)
    else ok (record s { world_received = true })
on_event s sent =
    if s.ack_posted && not s.ack_completed
    then ok (record s { ack_completed = true })
    else if s.hello_posted && not s.hello_completed
    then ok (record s { hello_completed = true })
    else err (message "unexpected or duplicate send completion")
on_event s peer_closed = ok (record s { peer_closed = true })

unfoldable pub next_message : Exchange → Option Message
next_message s =
    if not s.connected || s.peer_closed
    then none
    else if not s.hello_posted
    then some hello
    else if s.hello_completed && s.world_received && not s.ack_posted
    then some ack
    else none

unfoldable pub posted : Message → Exchange → Exchange
posted hello s = record s { hello_posted = true }
posted ack s = record s { ack_posted = true }

unfoldable pub complete : Exchange → Bool
complete s = s.world_received && s.hello_completed && s.ack_completed
