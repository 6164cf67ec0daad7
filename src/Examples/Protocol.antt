-- ===== src/Examples/Protocol.antt =====
-- A run of both programs on one connection, from the connect to the last close.
use rdma_prototype.Base.{◌≡◌, refl, List, [], ◌∷◌, true, false, some, ◌≤◌}
use rdma_prototype.State.{connected, received, sent, peer_closed}
use rdma_prototype.State.Client
use rdma_prototype.State.Server
use rdma_prototype.Outcome.{ok}
use rdma_prototype.Server.Exchange.{hello_text, ack_text, world_text}
use rdma_prototype.Protocol.System.{
  Port, World, Move, initial, client_event, client_post, client_leave, server_event, server_receive,
  server_post, server_leave, step, Reach, start, Reach-play,
}
use rdma_prototype.Protocol.Delivery.{Reach-accepted}
use rdma_prototype.Protocol.Termination.{Reach-le}
use rdma_prototype.Protocol.Progress.{Stuck, IsFinished, Stuck-IsFinished}

-- The hello arrives before the server is told of the connection, and the reply before the
-- completion of the hello.
abbrev script : List Move
script =
    client_event connected
    ∷ client_post
    ∷ server_event (received hello_text)
    ∷ server_event connected
    ∷ server_receive
    ∷ server_post
    ∷ client_event (received world_text)
    ∷ client_event sent
    ∷ client_post
    ∷ server_event (received ack_text)
    ∷ []

abbrev closing_script : List Move
closing_script =
    server_event sent
    ∷ server_leave
    ∷ client_event peer_closed
    ∷ client_event sent
    ∷ client_leave
    ∷ []

abbrev quiet : Port
quiet = record { tx = false; rx = false; connecting = false; shutting = false; inbox = [] }

-- The ACK has arrived; both sends are still in flight.
abbrev answered : World
answered = record {
  client = record {
    connected = true;
    hello_posted = true;
    hello_completed = true;
    world_received = true;
    ack_posted = true;
    ack_completed = false;
    peer_closed = false;
  };
  client_port = record quiet { tx = true };
  client_left = false;
  server = record { phase = Server.done; connected = true; sent = false; peer_closed = false };
  server_port = record quiet { tx = true };
  server_left = false;
}

abbrev finished : World
finished = record {
  client = record answered.client { ack_completed = true; peer_closed = true };
  client_port = quiet;
  client_left = true;
  server = record answered.server { sent = true };
  server_port = record quiet { shutting = true };
  server_left = true;
}

answered-Reach : Reach answered 10
unfolding step Client.bytes
answered-Reach = Reach-play script initial answered 0 start refl

finished-Reach : Reach finished 15
unfolding step
finished-Reach = Reach-play closing_script answered finished 10 answered-Reach refl

finished-Stuck : Stuck finished
unfolding step
finished-Stuck (client_event e) = refl
finished-Stuck client_post = refl
finished-Stuck client_leave = refl
finished-Stuck (server_event e) = refl
finished-Stuck server_receive = refl
finished-Stuck server_post = refl
finished-Stuck server_leave = refl

Stuck-IsFinished_example : IsFinished finished
Stuck-IsFinished_example = Stuck-IsFinished finished-Reach finished-Stuck

-- The server's TX completion, once the ACK has arrived.
abbrev completed : World
completed = record answered { server = record answered.server { sent = true }; server_port = quiet }

sent_accepted : step answered (server_event sent) ≡ some (ok completed)
unfolding step
sent_accepted = refl

Reach-accepted_example : (v : World) × (ok completed ≡ ok v)
Reach-accepted_example =
    Reach-accepted (server_event sent) (ok completed) answered-Reach sent_accepted

Reach-le_example : 15 ≤ 16
Reach-le_example = Reach-le finished-Reach
