-- ===== src/Server/Conversation.antt =====
-- What the server has heard and said in each phase.
use rdma_prototype.Base.{◌≡◌, refl, ℕ, true, List, [], ◌∷◌, ◌++◌, eq_of_bytes_eq, arith}
use rdma_prototype.State.{Event, connected, received, sent, peer_closed}
use rdma_prototype.State.Server.{Exchange, Phase, hello, reply, ack, done, new}
use rdma_prototype.Outcome.{ok}
use rdma_prototype.Server.Exchange.{on_event, hello_text, ack_text}
use rdma_prototype.Server.Loop.{may_reply}

-- A message that the server accepted, and the reply that it sent.
pub data Item : Type 0 where
  heard : List ℕ → Item
  replied : Item

abbrev pub items_of : Event → List Item
items_of (received text) = heard text ∷ []
items_of _ = []

-- The states that the loop reaches, with what was heard and said so far: by an event that is
-- accepted, or by a reply that was due and was submitted.
pub data Run : Exchange → List Item → Type 0 where
  start : Run new []
  event :
      {s : Exchange} {items : List Item} (t : Exchange) (e : Event)
      → on_event s e ≡ ok t
      → Run s items
      → Run t (items ++ items_of e)
  post :
      {s : Exchange} {items : List Item}
      → may_reply s ≡ true
      → Run s items
      → Run (record s { phase = ack }) (items ++ replied ∷ [])

-- The conversation that belongs to a phase.
abbrev pub conversation : Phase → List Item
conversation hello = []
conversation reply = heard hello_text ∷ []
conversation ack = heard hello_text ∷ replied ∷ []
conversation done = heard hello_text ∷ replied ∷ heard ack_text ∷ []

event-conversation :
    (s t : Exchange) (e : Event)
    → on_event s e ≡ ok t
    → conversation t.phase ≡ conversation s.phase ++ items_of e
unfolding on_event
event-conversation s t (received text) h =
    ground (arith, eq_of_bytes_eq text hello_text, eq_of_bytes_eq text ack_text)
event-conversation s t connected h = ground arith
event-conversation s t sent h = ground arith
event-conversation s t peer_closed h = ground arith

post-conversation :
    (s : Exchange) → may_reply s ≡ true → conversation s.phase ++ replied ∷ [] ≡ conversation ack
unfolding may_reply
post-conversation s h = ground arith

-- In every run of the server's state machine the phase says exactly what was heard and said: the
-- hello, then the reply, then the ACK, each once and nothing else.
pub Run-conversation :
    {s : Exchange} {items : List Item} → Run s items → items ≡ conversation s.phase
Run-conversation start = refl
Run-conversation (event {s} {items} t e h r) =
    rw (Run-conversation r) (ground (arith, event-conversation s t e h))
Run-conversation (post {s} {items} h r) = rw (Run-conversation r) (post-conversation s h)
