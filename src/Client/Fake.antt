-- ===== src/Client/Fake.antt =====
-- src/bin/clients.rs: the transport `FakeIo` of the unit tests, which scripts the events of each poll.
use rdma_prototype.Base.{ℕ, ◌+◌, Bool, true, false, List, [], ◌∷◌, ◌++◌, bytes_eq, if◌then◌else◌}
use rdma_prototype.State.{Event, received, sent, peer_closed}
use rdma_prototype.State.Client.{hello, ack, bytes, world}
use rdma_prototype.Outcome.{ok, err, panic, message}
use rdma_prototype.Machine.{Exec}
use rdma_prototype.Client.Loop.{ClientIo, Clock}

pub record FakeIo : Type 0 where
  pub events : List (List Event)
  pub attempts : List (List ℕ)
  pub again : Bool

-- `self.events.pop_front().unwrap_or_default()`
abbrev pub popped : List (List Event) → List Event
popped [] = []
popped (front ∷ rest) = front

abbrev pub kept : List (List Event) → List (List Event)
kept [] = []
kept (front ∷ rest) = rest

unfoldable pub fake_poll : Exec FakeIo (List Event)
fake_poll s = (ok (popped s.events), record s { events = kept s.events })

-- What the peer and the adapter answer to a message that is accepted.
abbrev pub push : List Event → List Event → FakeIo → FakeIo
push first second s = record s { events = s.events ++ first ∷ second ∷ [] }

unfoldable pub fake_answer : List ℕ → Exec FakeIo Bool
unfolding bytes
fake_answer text s =
    if bytes_eq text (bytes hello)
    then (ok true, push (received world ∷ []) (sent ∷ []) s)
    else if bytes_eq text (bytes ack)
    then (ok true, push (peer_closed ∷ []) (sent ∷ []) s)
    else (panic, s)

unfoldable pub fake_send : List ℕ → Exec FakeIo Bool
unfolding fake_answer
fake_send text s =
    let tried = record s { attempts = s.attempts ++ text ∷ [] } in
    if tried.again then (ok false, record tried { again = false }) else fake_answer text tried

-- Beside it a clock that only sleeping moves, in nanoseconds.
pub record Timed : Type 0 where
  pub io : FakeIo
  pub time : ℕ

abbrev pub lift_io : {A : Type 0} → Exec FakeIo A → Exec Timed A
lift_io m s = let (r, t) = m s.io in (r, record s { io = t })

abbrev pub timed_io : ClientIo Timed
timed_io = record { poll = lift_io fake_poll; send = λ text. lift_io (fake_send text) }

abbrev pub timed_clock : Clock Timed
timed_clock = record {
  now = λ s. (ok s.time, s);
  sleep = λ s. (ok tt, record s { time = s.time + 1000000 });
}

-- `BrokenIo`, whose polls fail.
abbrev pub broken_io : ClientIo Timed
broken_io = record {
  poll = λ s. (err (message "injected CQ error"), s);
  send = λ text s. (panic, s);
}
