-- ===== src/Protocol/Termination.antt =====
-- The client's and the server's state machines on one connection: the length of a run.
use rdma_prototype.Base.{◌≡◌, ℕ, ◌+◌, ◌≤◌, Bool, true, false, not, some, arith, if◌then◌else◌}
use rdma_prototype.State.{Event, connected, received, sent, peer_closed}
use rdma_prototype.State.Server
use rdma_prototype.State.Server.{Phase}
use rdma_prototype.Outcome.{ok}
use rdma_prototype.Client.Exchange.{
  on_event as client_on_event, next_message, complete as client_complete, posted,
}
use rdma_prototype.Server.Exchange.{on_event as server_on_event, on_message}
use rdma_prototype.Server.Loop.{may_reply}
use rdma_prototype.Protocol.System.{
  World, Move, client_event, client_post, client_leave, server_event, server_receive, server_post,
  server_leave, deliver, report, client_see, client_set, server_see, client_submit, server_set,
  server_submit, step, Reach, start, next,
}
use rdma_prototype.Protocol.Invariant.{Agree}
use rdma_prototype.Protocol.Delivery.{Reach-Agree}

abbrev as_number : Bool → ℕ
as_number true = 1
as_number false = 0

-- What is still to come on the client's side.
abbrev client_cost : World → ℕ
client_cost w =
    as_number w.client_port.connecting
    + as_number (not w.client.hello_posted)
    + as_number (not w.client.hello_completed)
    + as_number (not w.client.world_received)
    + as_number (not w.client.ack_posted)
    + as_number (not w.client.ack_completed)
    + as_number (not w.client_left)
    + (if w.server_left then as_number w.client_port.shutting else 1)

-- The phases, and the receive for the ACK, that are still to come.
abbrev phase_cost : Phase → Bool → ℕ
phase_cost Server.hello rx = 4
phase_cost Server.reply rx = if rx then 2 else 3
phase_cost Server.ack rx = 1
phase_cost Server.done rx = 0

abbrev server_cost : World → ℕ
server_cost w =
    as_number w.server_port.connecting
    + phase_cost w.server.phase w.server_port.rx
    + as_number (not w.server.sent)
    + as_number (not w.server_left)
    + (if w.client_left then as_number w.server_port.shutting else 1)

abbrev cost : World → ℕ
cost w = client_cost w + server_cost w

client_post-cost : (w v : World) → Agree w → step w client_post ≡ some (ok v) → cost v + 1 ≤ cost w
unfolding step client_submit next_message posted client_complete
client_post-cost w v a h = ground arith

client_leave-cost :
    (w v : World) → Agree w → step w client_leave ≡ some (ok v) → cost v + 1 ≤ cost w
unfolding step
client_leave-cost w v a h = ground arith

server_leave-cost :
    (w v : World) → Agree w → step w server_leave ≡ some (ok v) → cost v + 1 ≤ cost w
unfolding step
server_leave-cost w v a h = ground arith

server_receive-cost :
    (w v : World) → Agree w → step w server_receive ≡ some (ok v) → cost v + 1 ≤ cost w
unfolding step may_reply
server_receive-cost w v a h = ground arith

server_post-cost : (w v : World) → Agree w → step w server_post ≡ some (ok v) → cost v + 1 ≤ cost w
unfolding step may_reply server_submit
server_post-cost w v a h = ground arith

client_event-cost :
    (w v : World) (e : Event)
    → Agree w
    → step w (client_event e) ≡ some (ok v)
    → cost v + 1 ≤ cost w
unfolding step report client_see client_set client_on_event deliver
client_event-cost w v connected a h = ground arith
client_event-cost w v sent a h = ground arith
client_event-cost w v peer_closed a h = ground arith
client_event-cost w v (received text) a h = ground arith

server_event-cost :
    (w v : World) (e : Event)
    → Agree w
    → step w (server_event e) ≡ some (ok v)
    → cost v + 1 ≤ cost w
unfolding step report server_see server_set server_on_event on_message deliver
server_event-cost w v connected a h = ground arith
server_event-cost w v sent a h = ground arith
server_event-cost w v peer_closed a h = ground arith
server_event-cost w v (received text) a h = ground arith

step-cost : (w v : World) (m : Move) → Agree w → step w m ≡ some (ok v) → cost v + 1 ≤ cost w
step-cost w v (client_event e) a h = client_event-cost w v e a h
step-cost w v client_post a h = client_post-cost w v a h
step-cost w v client_leave a h = client_leave-cost w v a h
step-cost w v (server_event e) a h = server_event-cost w v e a h
step-cost w v server_receive a h = server_receive-cost w v a h
step-cost w v server_post a h = server_post-cost w v a h
step-cost w v server_leave a h = server_leave-cost w v a h

Reach-cost : {w : World} {n : ℕ} → Reach w n → n + cost w ≤ 16
Reach-cost start = omega arith
Reach-cost (next {w} {v} m h r) = omega (arith, Reach-cost r, step-cost w v m (Reach-Agree r) h)

-- No run of the two programs on one connection makes more than 16 moves.
pub Reach-le : {w : World} {n : ℕ} → Reach w n → n ≤ 16
Reach-le r = omega (arith, Reach-cost r)
