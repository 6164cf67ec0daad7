-- ===== src/Protocol/System.antt =====
-- src/bin/clients.rs and src/bin/server.rs: both programs on one connection, in any interleaving.
-- The connection is a reliable one: it delivers each message once, in order, into a posted
-- receive, reports each submitted send once, and tells each side of the connect and of a close.
use rdma_prototype.Base.{
  ℕ, suc, List, [], refl, arith, ◌∷◌, ◌++◌, Bool, true, false, not, ◌&&◌, ◌||◌, ◌≡◌, Option, none,
  some, bytes_eq, if◌then◌else◌,
}
use rdma_prototype.State.{Event, connected, received, sent, peer_closed}
use rdma_prototype.State.Client
use rdma_prototype.State.Client.{Message, bytes}
use rdma_prototype.State.Server
use rdma_prototype.Outcome.{Outcome, ok, err, panic, unfinished, message}
use rdma_prototype.Client.Exchange.{
  on_event as client_on_event, next_message, posted, complete as client_complete,
}
use rdma_prototype.Server.Exchange.{
  on_event as server_on_event, complete as server_complete, world_text,
}
use rdma_prototype.Server.Loop.{may_reply}

-- One side of the connection: a send and a receive in flight, the events of the event queue that
-- are still to come, and the messages on their way to this side.
pub record Port : Type 0 where
  pub tx : Bool
  pub rx : Bool
  pub connecting : Bool
  pub shutting : Bool
  pub inbox : List (List ℕ)

pub record World : Type 0 where
  pub client : Client.Exchange
  pub client_port : Port
  pub client_left : Bool
  pub server : Server.Exchange
  pub server_port : Port
  pub server_left : Bool

-- Both sides post their first receive before the connection stands.
abbrev pub opened : Port
opened = record { tx = false; rx = true; connecting = true; shutting = false; inbox = [] }

abbrev pub initial : World
initial = record {
  client = Client.default;
  client_port = opened;
  client_left = false;
  server = Server.new;
  server_port = opened;
  server_left = false;
}

-- The first message on its way, if a receive is posted for it.
unfoldable pub deliver : Port → List ℕ → List (List ℕ) → Option Port
deliver p text [] = none
deliver p text (first ∷ rest) =
    if p.rx && bytes_eq text first then some (record p { rx = false; inbox = rest }) else none

-- The port after it has reported an event, where it can.
unfoldable pub report : Port → Event → Option Port
unfolding deliver
report p connected = if p.connecting then some (record p { connecting = false }) else none
report p sent = if p.tx then some (record p { tx = false }) else none
report p (received text) = deliver p text p.inbox
report p peer_closed = if p.shutting then some (record p { shutting = false }) else none

-- What can happen next: an event, a submission, the second receive of the server, a close.
pub data Move : Type 0 where
  client_event : Event → Move
  client_post : Move
  client_leave : Move
  server_event : Event → Move
  server_receive : Move
  server_post : Move
  server_leave : Move

unfoldable pub client_set : World → Port → Outcome Client.Exchange → Outcome World
client_set w p (ok c) = ok (record w { client = c; client_port = p })
client_set w p (err e) = err e
client_set w p panic = panic
client_set w p unfinished = unfinished

unfoldable pub client_see : World → Event → Option Port → Option (Outcome World)
unfolding client_set client_on_event
client_see w e none = none
client_see w e (some p) = some (client_set w p (client_on_event w.client e))

unfoldable pub server_set : World → Port → Outcome Server.Exchange → Outcome World
server_set w p (ok s) = ok (record w { server = s; server_port = p })
server_set w p (err e) = err e
server_set w p panic = panic
server_set w p unfinished = unfinished

unfoldable pub server_see : World → Event → Option Port → Option (Outcome World)
unfolding server_set server_on_event
server_see w e none = none
server_see w e (some p) = some (server_set w p (server_on_event w.server e))

-- `Connection::send` on a port, with the message on its way to the other side.
unfoldable pub client_submit : World → Option Message → Option (Outcome World)
unfolding posted
client_submit w none = none
client_submit w (some m) =
    if w.client_port.tx
    then some (err (message "send slot is already in flight"))
    else some (
        ok (record w {
          client = posted m w.client;
          client_port = record w.client_port { tx = true };
          server_port = record w.server_port { inbox = w.server_port.inbox ++ bytes m ∷ [] };
        }))

unfoldable pub server_submit : World → Option (Outcome World)
server_submit w =
    if w.server_port.tx
    then some (err (message "send slot is already in flight"))
    else some (
        ok (record w {
          server = record w.server { phase = Server.ack };
          server_port = record w.server_port { tx = true };
          client_port = record w.client_port { inbox = w.client_port.inbox ++ world_text ∷ [] };
        }))

-- `none` where the move cannot happen now; otherwise what the program makes of it.
unfoldable pub step : World → Move → Option (Outcome World)
unfolding report client_see client_complete next_message client_submit server_see server_complete
    may_reply server_submit
step w (client_event e) = if w.client_left then none else client_see w e (report w.client_port e)
step w client_post =
    if w.client_left || client_complete w.client
    then none
    else client_submit w (next_message w.client)
step w client_leave =
    if not w.client_left && client_complete w.client
    then some (
        ok
          (record w { client_left = true; server_port = record w.server_port { shutting = true } }))
    else none
step w (server_event e) = if w.server_left then none else server_see w e (report w.server_port e)
step w server_receive =
    if not w.server_left && may_reply w.server && not w.server_port.rx
    then some (ok (record w { server_port = record w.server_port { rx = true } }))
    else none
step w server_post =
    if not w.server_left && may_reply w.server && w.server_port.rx then server_submit w else none
step w server_leave =
    if not w.server_left && server_complete w.server
    then some (
        ok
          (record w { server_left = true; client_port = record w.client_port { shutting = true } }))
    else none

-- The worlds that moves lead to, with the number of moves.
pub data Reach : World → ℕ → Type 0 where
  start : Reach initial 0
  next : {w v : World} {n : ℕ} (m : Move) → step w m ≡ some (ok v) → Reach w n → Reach v (suc n)

-- The world after a list of moves, where each of them can happen and is accepted.
abbrev pub accepted : Option (Outcome World) → (World → Option World) → Option World
accepted (some (ok w)) after = after w
accepted _ after = none

abbrev pub play : List Move → World → Option World
play [] w = some w
play (m ∷ moves) w = accepted (step w m) (play moves)

-- That many moves more.
abbrev pub count : List Move → ℕ → ℕ
count [] n = n
count (m ∷ moves) n = count moves (suc n)

accepted-some :
    (o : Option (Outcome World)) (after : World → Option World) (v : World)
    → accepted o after ≡ some v
    → (u : World) × (o ≡ some (ok u)) × (after u ≡ some v)
accepted-some (some (ok u)) after v h = (u, refl, h)
accepted-some (some (err x)) after v h = ground arith
accepted-some (some panic) after v h = ground arith
accepted-some (some unfinished) after v h = ground arith
accepted-some none after v h = ground arith

pub Reach-play :
    (moves : List Move) (w v : World) (n : ℕ)
    → Reach w n
    → play moves w ≡ some v
    → Reach v (count moves n)
Reach-play [] w v n r h = let same : w ≡ v = ground arith in rw same at r
Reach-play (m ∷ moves) w v n r h =
    let (u, e, k) = accepted-some (step w m) (play moves) v h in
    Reach-play moves u v (suc n) (next m e r) k
