-- ===== src/Protocol/Progress.antt =====
-- The client's and the server's state machines on one connection: worlds in which no move can
-- happen.
use rdma_prototype.Base.{
  ◌≡◌, ℕ, List, [], ◌∷◌, Bool-cases, inl, inr, true, false, none, some, arith, bytes_eq_self,
}
use rdma_prototype.State.{Event, connected, received, sent}
use rdma_prototype.Client.Exchange.{next_message, complete as client_complete}
use rdma_prototype.Server.Exchange.{complete as server_complete, world_text, hello_text, ack_text}
use rdma_prototype.Server.Loop.{may_reply}
use rdma_prototype.Protocol.System.{
  Port, World, Move, client_event, client_post, client_leave, server_event, server_receive,
  server_post, server_leave, deliver, report, client_see, server_see, client_submit, server_submit,
  step, Reach,
}
use rdma_prototype.Protocol.Invariant.{Agree, replied, is_hello, is_ack}
use rdma_prototype.Protocol.Delivery.{Reach-Agree}

-- No move can happen.
abbrev pub Stuck : World → Type 0
Stuck w = (m : Move) → step w m ≡ none

can_deliver :
    (p : Port) (text : List ℕ) (rest : List (List ℕ))
    → p.rx ≡ true
    → p.inbox ≡ text ∷ rest
    → report p (received text) ≡ some (record p { rx = false; inbox = rest })
unfolding report deliver
can_deliver p text rest r h = rw h (ground (arith, bytes_eq_self text))

client_sees :
    (w : World) (e : Event) (p : Port)
    → w.client_left ≡ false
    → report w.client_port e ≡ some p
    → ¬ (step w (client_event e) ≡ none)
unfolding step client_see
client_sees w e p l r h = ground arith

server_sees :
    (w : World) (e : Event) (p : Port)
    → w.server_left ≡ false
    → report w.server_port e ≡ some p
    → ¬ (step w (server_event e) ≡ none)
unfolding step server_see
server_sees w e p l r h = ground arith

module _ (w : World) (a : Agree w) where
  -- What a client that has not left has done when no move of its own can happen.
  client_silent :
      step w (client_event connected) ≡ none
      → step w (client_event sent) ≡ none
      → w.client_left ≡ false
      → (w.client.connected ≡ true) × (w.client_port.tx ≡ false)
  unfolding step report client_see
  client_silent c s l = ground arith

  client_waiting :
      step w client_post ≡ none
      → step w client_leave ≡ none
      → w.client_left ≡ false
      → (client_complete w.client ≡ false) × (next_message w.client ≡ none)
  unfolding step client_submit
  client_waiting p q l = ground arith

  client_heard :
      step w (client_event (received world_text)) ≡ none
      → w.client_left ≡ false
      → replied w.server.phase ≡ true
      → w.client.world_received ≡ true
  client_heard h l r = elim (Bool-cases w.client.world_received) [
    | inl heard ↦ heard
    | inr missing ↦ absurd (
        client_sees w _ _ l (can_deliver w.client_port world_text [] (ground arith) (ground arith))
          h)
  ]

  server_silent :
      step w (server_event connected) ≡ none
      → step w (server_event sent) ≡ none
      → w.server_left ≡ false
      → (w.server.connected ≡ true) × (w.server_port.tx ≡ false)
  unfolding step report server_see
  server_silent c s l = ground arith

  server_waiting :
      step w server_receive ≡ none
      → step w server_post ≡ none
      → step w server_leave ≡ none
      → w.server_left ≡ false
      → (server_complete w.server ≡ false) × (may_reply w.server ≡ false)
  unfolding step server_submit
  server_waiting r p q l = ground arith

  server_heard_hello :
      step w (server_event (received hello_text)) ≡ none
      → w.server_left ≡ false
      → w.client.hello_posted ≡ true
      → is_hello w.server.phase ≡ false
  server_heard_hello h l r = elim (Bool-cases (is_hello w.server.phase)) [
    | inl missing ↦ absurd (
        server_sees w _ _ l (can_deliver w.server_port hello_text [] (ground arith) (ground arith))
          h)
    | inr heard ↦ heard
  ]

  server_heard_ack :
      step w (server_event (received ack_text)) ≡ none
      → w.server_left ≡ false
      → w.client.ack_posted ≡ true
      → is_ack w.server.phase ≡ false
  server_heard_ack h l r = elim (Bool-cases (is_ack w.server.phase)) [
    | inl missing ↦ absurd (
        server_sees w _ _ l (can_deliver w.server_port ack_text [] (ground arith) (ground arith)) h)
    | inr heard ↦ heard
  ]

-- Both programs have left, each with its exchange complete, and nothing is in flight.
pub record IsFinished (w : World) : Type 0 where
  pub client_left : w.client_left ≡ true
  pub server_left : w.server_left ≡ true
  pub client_complete : client_complete w.client ≡ true
  pub server_complete : server_complete w.server ≡ true
  pub client_tx : w.client_port.tx ≡ false
  pub client_rx : w.client_port.rx ≡ false
  pub client_inbox : w.client_port.inbox ≡ []
  pub server_tx : w.server_port.tx ≡ false
  pub server_inbox : w.server_port.inbox ≡ []

Stuck-left : {w : World} → Agree w → Stuck w → (w.client_left ≡ true) × (w.server_left ≡ true)
unfolding client_complete server_complete next_message may_reply
Stuck-left {w} a stuck = ground (
  arith,
  a.valid,
  client_silent w a (stuck (client_event connected)) (stuck (client_event sent)),
  client_waiting w a (stuck client_post) (stuck client_leave),
  client_heard w a (stuck (client_event (received world_text))),
  server_silent w a (stuck (server_event connected)) (stuck (server_event sent)),
  server_waiting w a (stuck server_receive) (stuck server_post) (stuck server_leave),
  server_heard_hello w a (stuck (server_event (received hello_text))),
  server_heard_ack w a (stuck (server_event (received ack_text))),
)

left-IsFinished : (w : World) → Agree w → w.client_left ≡ true → w.server_left ≡ true → IsFinished w
unfolding client_complete server_complete
left-IsFinished w a c s = ground arith

-- A run of the two programs on one connection that can go no further has ended well: both programs
-- have left with their exchanges complete, and no send and no message is in flight.
pub Stuck-IsFinished : {w : World} {n : ℕ} → Reach w n → Stuck w → IsFinished w
Stuck-IsFinished {w} reach stuck =
    let a = Reach-Agree reach in let (c, s) = Stuck-left a stuck in left-IsFinished w a c s
