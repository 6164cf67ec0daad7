-- ===== src/Examples/Applications.antt =====
-- The theorems of the client and the server at concrete runs.
use mathlib.Core.List.{Permᴰ}
use rdma_prototype.Base.{ℕ, ◌+◌, ◌≡◌, refl, true, List, [], ◌∷◌, none, arith}
use rdma_prototype.State.{Event, connected, received, sent}
use rdma_prototype.State.Client.{Exchange, default, hello, ack, world}
use rdma_prototype.State.Server as Served
use rdma_prototype.Outcome.{ok}
use rdma_prototype.Machine.Logic.{Finishes}
use rdma_prototype.Client.Exchange.{on_event, next_message, posted, complete}
use rdma_prototype.Client.Loop.{ClientIo, Clock, on_events, exchange}
use rdma_prototype.Client.Invariant.{IsValid, Step, Reach, Reach-IsValid, complete-IsDone}
use rdma_prototype.Client.Order.{on_events-perm}
use rdma_prototype.Client.Log.{logged_io, logged_clock, Ended}
use rdma_prototype.Client.Sends.{exchange-Ended}
use rdma_prototype.Client.Termination.{ClockLaws, exchange-Finishes}
use rdma_prototype.Server.Exchange.{on_event as serve_event, hello_text}
use rdma_prototype.Server.Loop.{on_events as serve_events}
use rdma_prototype.Server.Order.{serve_events-perm}
use rdma_prototype.Server.Conversation.{Item, heard, Run, conversation, Run-conversation}

-- A transport that only has a clock.
abbrev silent : ClientIo ℕ
silent = record { poll = λ s. (ok [], s); send = λ text s. (ok true, s) }

abbrev ticking : Clock ℕ
ticking = record { now = λ s. (ok s, s); sleep = λ s. (ok tt, s + 1000000) }

silent_laws : ClockLaws silent ticking (λ s. s)
silent_laws = record {
  now = λ s. (refl, omega arith);
  sleep = λ s. omega arith;
  poll = λ s. omega arith;
  send = λ s text. omega arith;
}

exchange-Ended_example :
    let (r, t) =
      exchange
        (logged_io silent)
        (logged_clock ticking)
        3
        2000000
        (record { inner = 0; sent = [] }) in
    Ended r t.sent
exchange-Ended_example = exchange-Ended silent ticking 3 2000000 0

exchange-Finishes_example : Finishes (λ _ _. Unit) (exchange silent ticking 3 2000000 0)
exchange-Finishes_example = exchange-Finishes silent_laws 2 2000000 0 (omega arith)

-- A whole exchange of the client, the reply before the completion of the hello.
abbrev joined : Exchange
joined = record default { connected = true }

abbrev greeted : Exchange
greeted = record joined { hello_posted = true }

abbrev answered : Exchange
answered = record greeted { world_received = true }

abbrev freed : Exchange
freed = record answered { hello_completed = true }

abbrev acked : Exchange
acked = record freed { ack_posted = true }

abbrev finished : Exchange
finished = record acked { ack_completed = true }

finished-Reach : Reach finished
unfolding on_event next_message posted
finished-Reach =
    let r1 : Reach joined = Reach.next Reach.start (Step.event connected refl) in
    let r2 : Reach greeted = Reach.next r1 (Step.post hello refl refl) in
    let r3 : Reach answered = Reach.next r2 (Step.event (received world) refl) in
    let r4 : Reach freed = Reach.next r3 (Step.event sent refl) in
    let r5 : Reach acked = Reach.next r4 (Step.post ack refl refl) in
    Reach.next r5 (Step.event sent refl)

Reach-IsValid_example : IsValid finished
Reach-IsValid_example = Reach-IsValid finished-Reach

complete-IsDone_example :
    (finished.connected ≡ true)
    × (finished.hello_posted ≡ true)
    × (finished.ack_posted ≡ true)
    × (next_message finished ≡ none)
unfolding complete
complete-IsDone_example = complete-IsDone finished-Reach refl

-- The completion of the hello and the reply, in either order.
abbrev two_events : List Event
two_events = sent ∷ received world ∷ []

on_events-perm_example : on_events greeted (received world ∷ sent ∷ []) ≡ ok freed
unfolding on_events
on_events-perm_example =
    on_events-perm greeted freed (Permᴰ.swap {a = sent} {b = received world} {l = []} refl refl)
      refl

-- The server: the hello arrives before the connection event.
serve_events-perm_example :
    serve_events Served.new (connected ∷ received hello_text ∷ [])
    ≡ ok (record Served.new { phase = Served.reply; connected = true })
unfolding serve_events
serve_events-perm_example =
    serve_events-perm Served.new (record Served.new { phase = Served.reply; connected = true })
      (Permᴰ.swap {a = received hello_text} {b = connected} {l = []} refl refl) refl

server-Run :
    Run (record Served.new { phase = Served.reply; connected = true }) (heard hello_text ∷ [])
unfolding serve_event
server-Run =
    Run.event (record Served.new { phase = Served.reply; connected = true }) connected refl
      (Run.event (record Served.new { phase = Served.reply }) (received hello_text) refl Run.start)

Run-conversation_example : ◌≡◌ {A = List Item} (heard hello_text ∷ []) (conversation Served.reply)
Run-conversation_example = Run-conversation server-Run
