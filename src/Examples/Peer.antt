-- ===== src/Examples/Peer.antt =====
-- A machine with a client behind it: it connects, says hello, and acknowledges what is sent to it.
-- The server's theorems on a run that goes well.
use rdma_prototype.Base.{
  ◌≡◌, refl, ℕ, zero, suc, ◌+◌, ◌==◌, ◌≤◌, ◌<◌, ◌⊎◌, ◌≢◌, arith, none, ℤ, pos, negsuc, Bool, true,
  false, List, [], ◌∷◌, length, if◌then◌else◌,
}
use rdma_prototype.Outcome.{ok, unfinished}
use rdma_prototype.Ffi.{
  Completion, ConnectEvent, Status, post_send, post_recv, event_connected, completion_send,
  completion_recv,
}
use rdma_prototype.Machine.{Machine, At}
use rdma_prototype.Transport.Connection.{Connection, tx_id, rx_id}
use rdma_prototype.Server.Exchange.{hello_text, ack_text}
use rdma_prototype.Server.Loop.{serve}
use rdma_prototype.Server.Replies.{accepted_sends}
use rdma_prototype.Server.Refinement.{Conversed, serve-Conversed, serve-le}
use rdma_prototype.Machine.Clock.{Clocked, refusals}
use rdma_prototype.Machine.Halting.{IsAnswer}
use rdma_prototype.Server.Run.{run}
use rdma_prototype.Server.Termination.{serve-Halts}
use rdma_prototype.Server.RunTermination.{server_run-Answers}
use rdma_prototype.Examples.Bench.{live, no_completion, no_event}

-- What the client says next, whether a send is to be reported, the receive buffer, and how many posted
-- receives will be answered by EAGAIN.
record Peer : Type 0 where
  time : ℕ
  linked : Bool
  says : List (List ℕ)
  due : Bool
  buffer : List ℕ
  busy : ℕ

abbrev eq_answer : Peer → ℤ × ConnectEvent × Peer
eq_answer w =
    if w.linked
    then (pos 0, no_event, w)
    else (pos 1, record no_event { event_type = event_connected }, record w { linked = true })

abbrev tx_answer : Peer → ℤ × Completion × Peer
tx_answer w =
    if w.due
    then (
      pos 1,
      record no_completion { op_id = tx_id; flags = completion_send },
      record w { due = false },
    )
    else (pos 0, no_completion, w)

abbrev heard_by : Peer → List (List ℕ) → ℤ × Completion × Peer
heard_by w [] = (pos 0, no_completion, w)
heard_by w (text ∷ rest) = (
  pos 1,
  record no_completion { op_id = rx_id; flags = completion_recv; len = length text },
  record w { says = rest; buffer = text },
)

abbrev taken_by : Peer → ℕ → ℤ × Peer
taken_by w zero = (pos 0, w)
taken_by w (suc more) = (negsuc 10, record w { busy = more })

-- A send is answered by the ACK.
abbrev status_answer : Status → Peer → ℤ × Peer
status_answer (post_send ep op mr len buf) w =
    (pos 0, record w { due = true; says = ack_text ∷ [] })
status_answer (post_recv ep op mr len buf) w = taken_by w w.busy
status_answer call w = (pos 0, w)

abbrev again_answer : ℤ → ℤ
again_answer (negsuc n) = pos 1
again_answer (pos n) = pos 0

abbrev peer : Machine
peer = record {
  World = Peer;
  open_handle = λ c w. (pos 0, 7, w);
  status = status_answer;
  eq_poll = λ q w. eq_answer w;
  cq_poll = λ q w. if q == live.tx_cq then tx_answer w else heard_by w w.says;
  info_free = λ p w. w;
  fabric_version = 65547;
  error_string = λ code. [];
  error_is_again = again_answer;
  now = λ w. (w.time, w);
  sleep = λ d w. record w { time = w.time + d };
  allocate = λ n w. (100, w);
  load = λ p w. w.buffer;
  store = λ p text w. w;
  release = λ p w. w;
}

abbrev served : At peer Connection
served = record {
  self = live;
  env = record {
    world = record {
      time = 5;
      linked = false;
      says = hello_text ∷ [];
      due = false;
      buffer = [];
      busy = 2;
    };
    trace = [];
  };
}

-- The server completes its exchange once the EAGAIN answers are over, with one reply.
served_ok :
    ((serve peer 6 3000000 served).0 ≡ ok tt)
    × (accepted_sends peer (serve peer 6 3000000 served).1.env.trace ≡ 1)
unfolding serve
served_ok = (refl, refl)

serve-Conversed_example : Conversed peer served (serve peer 6 3000000 served).1
unfolding serve
serve-Conversed_example = serve-Conversed peer 6 3000000 served

serve-le_example : accepted_sends peer (serve peer 6 3000000 served).1.env.trace ≤ 1
serve-le_example = serve-le peer 6 3000000 served

status_keeps : (c : Status) (w : Peer) → w.time ≤ (status_answer c w).1.time
status_keeps c w = ground arith

peer_clock : Clocked peer
peer_clock = record {
  time = λ w. w.time;
  now_reads = λ w. refl;
  now_later = λ w. omega arith;
  sleep_later = λ d w. omega arith;
  status_later = λ c w. status_keeps c w;
  eq_poll_later = λ q w. ground arith;
  cq_poll_later = λ q w. ground arith;
  store_later = λ p text w. omega arith;
}

-- Three milliseconds, and the two EAGAIN answers of this peer.
serve-Halts_example :
    let (r, t) = serve peer 6 3000000 served in (r ≢ unfinished) ⊎ (2 < refusals peer t.env.trace)
serve-Halts_example = serve-Halts peer_clock 3 2 3000000 served (omega arith)

refusals-served : refusals peer (serve peer 6 3000000 served).1.env.trace ≡ 2
unfolding serve
refusals-served = refl

server_run-Answers_example :
    let (r, e) =
      run peer 6
        (b'1' ∷ [])
        (b'7' ∷ [])
        none
        3000000
        (record { world = served.env.world; trace = [] }) in
    IsAnswer r ⊎ (2 < refusals peer e.trace)
server_run-Answers_example =
    server_run-Answers peer_clock 3 2 3000000 (omega arith) (b'1' ∷ []) (b'7' ∷ []) none
      served.env.world
