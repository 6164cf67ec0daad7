-- ===== src/Client/Invariant.antt =====
-- What holds of the client's `Exchange` in every state that the loop can reach.
use rdma_prototype.Base.{◌≡◌, true, none, some, arith}
use rdma_prototype.State.{Event}
use rdma_prototype.State.Client.{Exchange, Message, default}
use rdma_prototype.Outcome.{ok}
use rdma_prototype.Client.Exchange.{on_event, next_message, posted, complete}

pub record IsValid (s : Exchange) : Type 0 where
  pub hello_connected : s.hello_posted ≡ true → s.connected ≡ true
  pub completed_posted : s.hello_completed ≡ true → s.hello_posted ≡ true
  pub world_after_hello : s.world_received ≡ true → s.hello_posted ≡ true
  pub ack_after_completion : s.ack_posted ≡ true → s.hello_completed ≡ true
  pub ack_after_world : s.ack_posted ≡ true → s.world_received ≡ true
  pub ack_completed_posted : s.ack_completed ≡ true → s.ack_posted ≡ true

-- The loop moves by an event that is accepted, or by a message that was due and was submitted.
pub data Step (s t : Exchange) : Type 0 where
  event : (e : Event) → on_event s e ≡ ok t → Step s t
  post : (m : Message) → next_message s ≡ some m → t ≡ posted m s → Step s t

pub data Reach : Exchange → Type 0 where
  start : Reach default
  next : {s t : Exchange} → Reach s → Step s t → Reach t

default-IsValid : IsValid default
default-IsValid = ground arith

pub on_event-IsValid : (s t : Exchange) (e : Event) → on_event s e ≡ ok t → IsValid s → IsValid t
unfolding on_event
on_event-IsValid s t e h v = ground arith

pub posted-IsValid :
    (s : Exchange) (m : Message) → next_message s ≡ some m → IsValid s → IsValid (posted m s)
unfolding next_message posted
posted-IsValid s m h v = ground arith

Step-IsValid : (s t : Exchange) → Step s t → IsValid s → IsValid t
Step-IsValid s t (event e h) v = on_event-IsValid s t e h v
Step-IsValid s t (post m h e) v = rw e (posted-IsValid s m h v)

-- In every state that the client reaches, by any events and any accepted sends: the hello was
-- posted only once connected, its completion and the reply came only after it, the ACK was posted
-- only after both of these, and the completion of the ACK came only after the ACK.
pub Reach-IsValid : {s : Exchange} → Reach s → IsValid s
Reach-IsValid start = default-IsValid
Reach-IsValid (next {s} {t} r st) = Step-IsValid s t st (Reach-IsValid r)

-- A reachable state is complete exactly if the completion of the ACK was seen.
pub complete-eq-ack_completed : {s : Exchange} → Reach s → complete s ≡ s.ack_completed
unfolding complete
complete-eq-ack_completed r = ground (arith, Reach-IsValid r)

-- In a reachable state that is complete the connection was established, hello and ACK were posted,
-- and no message is due.
pub complete-IsDone :
    {s : Exchange}
    → Reach s
    → complete s ≡ true
    → (s.connected ≡ true)
      × (s.hello_posted ≡ true)
      × (s.ack_posted ≡ true)
      × (next_message s ≡ none)
unfolding complete next_message
complete-IsDone r h = ground (arith, Reach-IsValid r)
