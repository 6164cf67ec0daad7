-- ===== src/Protocol/Invariant.antt =====
-- The client's and the server's state machines on one connection: what holds in every world that
-- they reach.
use rdma_prototype.Base.{
  ◌≡◌, refl, ℕ, ◌++◌, List, [], ◌∷◌, Bool, Bool-cases, Option-cases, inl, inr, true, false, not,
  ◌&&◌, ◌||◌, Option, none, some, arith, if◌then◌else◌,
}
use rdma_prototype.State.Client
use rdma_prototype.State.Client.{bytes}
use rdma_prototype.State.Server
use rdma_prototype.State.Server.{Phase}
use rdma_prototype.Outcome.{Outcome, ok, err, panic, unfinished}
use rdma_prototype.Client.Exchange.{next_message, posted, complete as client_complete}
use rdma_prototype.Client.Invariant.{IsValid}
use rdma_prototype.Server.Exchange.{complete as server_complete, world_text, hello_text, ack_text}
use rdma_prototype.Server.Loop.{may_reply}
use rdma_prototype.Protocol.System.{
  World, client_post, client_leave, server_receive, server_post, server_leave, client_submit,
  server_submit, step,
}

-- The server has submitted the reply.
abbrev pub replied : Phase → Bool
replied Server.ack = true
replied Server.done = true
replied _ = false

abbrev pub is_hello : Phase → Bool
is_hello Server.hello = true
is_hello _ = false

abbrev pub is_ack : Phase → Bool
is_ack Server.ack = true
is_ack _ = false

abbrev pub is_done : Phase → Bool
is_done Server.done = true
is_done _ = false

-- The messages on their way, by what the two programs have sent and heard.
abbrev pub to_client : Client.Exchange → Server.Exchange → List (List ℕ)
to_client c s = if replied s.phase && not c.world_received then world_text ∷ [] else []

abbrev pub to_server : Client.Exchange → Server.Exchange → List (List ℕ)
to_server c s =
    if c.hello_posted && is_hello s.phase
    then hello_text ∷ []
    else if c.ack_posted && is_ack s.phase
    then ack_text ∷ []
    else []

-- The states of the two programs fit each other, and the ports fit both.
pub record Agree (w : World) : Type 0 where
  pub valid : IsValid w.client
  pub heard_hello : is_hello w.server.phase ≡ false → w.client.hello_posted ≡ true
  pub heard_world : w.client.world_received ≡ true → replied w.server.phase ≡ true
  pub heard_ack : is_done w.server.phase ≡ true → w.client.ack_posted ≡ true
  pub sent_reply : w.server.sent ≡ true → replied w.server.phase ≡ true
  pub client_tx : w.client_port.tx ≡ (
      w.client.hello_posted && not w.client.hello_completed
      || w.client.ack_posted && not w.client.ack_completed)
  pub server_tx : w.server_port.tx ≡ (replied w.server.phase && not w.server.sent)
  pub client_rx : w.client_port.rx ≡ not w.client.world_received
  pub hello_rx : is_hello w.server.phase ≡ true → w.server_port.rx ≡ true
  pub ack_rx : is_ack w.server.phase ≡ true → w.server_port.rx ≡ true
  pub client_inbox : w.client_port.inbox ≡ to_client w.client w.server
  pub server_inbox : w.server_port.inbox ≡ to_server w.client w.server
  pub client_due : w.client_port.connecting ≡ not w.client.connected
  pub server_due : w.server_port.connecting ≡ not w.server.connected
  pub reply_connected : replied w.server.phase ≡ true → w.server.connected ≡ true
  pub client_gone : w.client_left ≡ true → client_complete w.client ≡ true
  pub server_gone : w.server_left ≡ true → server_complete w.server ≡ true
  pub client_told : w.client.peer_closed || w.client_port.shutting ≡ true → w.server_left ≡ true
  pub server_told : w.server.peer_closed || w.server_port.shutting ≡ true → w.client_left ≡ true

-- A move that can happen is accepted, and leads to such a world again.
abbrev pub Accepted : Option (Outcome World) → Type 0
Accepted none = Unit
Accepted (some (ok v)) = Agree v
Accepted (some (err e)) = ⊥
Accepted (some panic) = ⊥
Accepted (some unfinished) = ⊥

-- The worlds that a submission leads to.
abbrev client_posted : World → Client.Message → World
client_posted w m = record w {
  client = posted m w.client;
  client_port = record w.client_port { tx = true };
  server_port = record w.server_port { inbox = w.server_port.inbox ++ bytes m ∷ [] };
}

client_tx_free :
    (w : World) (m : Client.Message)
    → next_message w.client ≡ some m
    → Agree w
    → w.client_port.tx ≡ false
unfolding next_message
client_tx_free w m h a = ground arith

client_submit-Agree :
    (w : World) (m : Client.Message)
    → w.client_left ≡ false
    → next_message w.client ≡ some m
    → Agree w
    → Agree (client_posted w m)
unfolding next_message client_complete server_complete posted bytes
client_submit-Agree w Client.hello l h a = ground arith
client_submit-Agree w Client.ack l h a = ground arith

pub client_post-Accepted : (w : World) → Agree w → Accepted (step w client_post)
unfolding step client_submit
client_post-Accepted w a = elim (Bool-cases (w.client_left || client_complete w.client)) [
  | inl over ↦ rw over tt
  | inr on ↦ elim (Option-cases (next_message w.client)) [
    | inl none_due ↦ rw (on, none_due) tt
    | inr (m, due) ↦
        rw (on, due, client_tx_free w m due a) (client_submit-Agree w m (ground arith) due a)
  ]
]

-- A move under a guard, whose world agrees where the guard holds.
Accepted-if :
    (guard : Bool) (v : World)
    → (guard ≡ true → Agree v)
    → Accepted (if guard then some (ok v) else none)
Accepted-if true v h = h refl
Accepted-if false v h = tt

pub client_leave-Accepted : (w : World) → Agree w → Accepted (step w client_leave)
unfolding step client_complete server_complete
client_leave-Accepted w a = Accepted-if _ _ (λ h. ground arith)

pub server_leave-Accepted : (w : World) → Agree w → Accepted (step w server_leave)
unfolding step client_complete server_complete
server_leave-Accepted w a = Accepted-if _ _ (λ h. ground arith)

pub server_receive-Accepted : (w : World) → Agree w → Accepted (step w server_receive)
unfolding step may_reply client_complete server_complete
server_receive-Accepted w a = Accepted-if _ _ (λ h. ground arith)

server_tx_free : (w : World) → may_reply w.server ≡ true → Agree w → w.server_port.tx ≡ false
unfolding may_reply
server_tx_free w h a = ground arith

server_submit-Accepted :
    (w : World)
    → w.server_left ≡ false
    → may_reply w.server ≡ true
    → w.server_port.rx ≡ true
    → Agree w
    → Accepted (server_submit w)
unfolding may_reply server_submit client_complete server_complete
server_submit-Accepted w l h x a = rw (server_tx_free w h a) (ground arith)

pub server_post-Accepted : (w : World) → Agree w → Accepted (step w server_post)
unfolding step
server_post-Accepted w a =
    elim (Bool-cases (not w.server_left && may_reply w.server && w.server_port.rx)) [
      | inl on ↦ rw on (server_submit-Accepted w (ground arith) (ground arith) (ground arith) a)
      | inr off ↦ rw off tt
    ]
