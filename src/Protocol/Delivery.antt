-- ===== src/Protocol/Delivery.antt =====
-- The client's and the server's state machines on one connection: what the programs make of the
-- events that it reports.
use rdma_prototype.Base.{
  ◌≡◌, refl, sym, ◌∙◌, ℕ, List, [], ◌∷◌, Bool, ◌⊎◌, inl, inr, true, false, Option, none, some,
  arith, if◌then◌else◌, eq_of_bytes_eq,
}
use rdma_prototype.State.{Event, connected, received, sent, peer_closed}
use rdma_prototype.State.Client
use rdma_prototype.State.Client.{bytes}
use rdma_prototype.State.Server
use rdma_prototype.Outcome.{Outcome, ok, err, panic, unfinished}
use rdma_prototype.Client.Exchange.{on_event as client_on_event, complete as client_complete}
use rdma_prototype.Server.Exchange.{
  on_event as server_on_event, on_message, complete as server_complete, world_text, hello_text,
  ack_text,
}
use rdma_prototype.Protocol.System.{
  Port, World, Move, initial, client_event, client_post, client_leave, server_event, server_receive,
  server_post, server_leave, deliver, report, client_see, client_set, server_see, server_set, step,
  Reach, start, next,
}
use rdma_prototype.Protocol.Invariant.{
  Agree, Accepted, to_client, to_server, client_post-Accepted, client_leave-Accepted,
  server_post-Accepted, server_leave-Accepted, server_receive-Accepted,
}

-- A report, whichever it is, is accepted, if it is accepted from the port that it leaves.
client_see-Accepted :
    (w : World) (e : Event) (o : Option Port)
    → ((p : Port) → o ≡ some p → Accepted (some (client_set w p (client_on_event w.client e))))
    → Accepted (client_see w e o)
unfolding client_see
client_see-Accepted w e none h = tt
client_see-Accepted w e (some p) h = h p refl

server_see-Accepted :
    (w : World) (e : Event) (o : Option Port)
    → ((p : Port) → o ≡ some p → Accepted (some (server_set w p (server_on_event w.server e))))
    → Accepted (server_see w e o)
unfolding server_see
server_see-Accepted w e none h = tt
server_see-Accepted w e (some p) h = h p refl

Accepted-unless :
    (guard : Bool) (o : Option (Outcome World))
    → (guard ≡ false → Accepted o)
    → Accepted (if guard then none else o)
Accepted-unless true o h = tt
Accepted-unless false o h = h refl

-- What was delivered was on its way, into a posted receive.
pub deliver-some :
    (p q : Port) (text : List ℕ) (inbox : List (List ℕ))
    → deliver p text inbox ≡ some q
    → (rest : List (List ℕ)) × (inbox ≡ text ∷ rest)
      × (p.rx ≡ true)
      × (q ≡ record p { rx = false; inbox = rest })
unfolding deliver
deliver-some p q text [] h = ground arith
deliver-some p q text (first ∷ rest) h =
    (rest, ground (arith, eq_of_bytes_eq text first), ground arith, ground arith)

to_client_cons :
    (c : Client.Exchange) (s : Server.Exchange) (text : List ℕ) (rest : List (List ℕ))
    → text ∷ rest ≡ to_client c s
    → (text ≡ world_text) × (rest ≡ []) × (c.world_received ≡ false)
to_client_cons c s text rest h = ground arith

client_connected :
    (w : World) (p : Port)
    → w.client_left ≡ false
    → report w.client_port connected ≡ some p
    → Agree w
    → Accepted (some (client_set w p (client_on_event w.client connected)))
unfolding report client_set client_on_event client_complete server_complete
client_connected w p l h a = ground arith

client_closed :
    (w : World) (p : Port)
    → w.client_left ≡ false
    → report w.client_port peer_closed ≡ some p
    → Agree w
    → Accepted (some (client_set w p (client_on_event w.client peer_closed)))
unfolding report client_set client_on_event client_complete server_complete
client_closed w p l h a = ground arith

client_sent :
    (w : World) (p : Port)
    → w.client_left ≡ false
    → report w.client_port sent ≡ some p
    → Agree w
    → Accepted (some (client_set w p (client_on_event w.client sent)))
unfolding report client_set client_on_event client_complete server_complete
client_sent w p l h a = ground arith

client_received :
    (w : World) (p : Port) (text : List ℕ)
    → w.client_left ≡ false
    → report w.client_port (received text) ≡ some p
    → Agree w
    → Accepted (some (client_set w p (client_on_event w.client (received text))))
unfolding report client_set client_on_event client_complete server_complete
client_received w p text l h a =
    let (rest, held, posted, left) = deliver-some w.client_port p text w.client_port.inbox h in
    let (same, last, fresh) =
      to_client_cons w.client w.server text rest (sym held ∙ a.client_inbox) in
    rw (same, left, last) (ground arith)

client_event-Accepted : (w : World) (e : Event) → Agree w → Accepted (step w (client_event e))
unfolding step
client_event-Accepted w e a =
    Accepted-unless _ _ (λ l. client_see-Accepted w e (report w.client_port e) (λ p h. at e p l h))
  where
    at :
        (e : Event) (p : Port)
        → w.client_left ≡ false
        → report w.client_port e ≡ some p
        → Accepted (some (client_set w p (client_on_event w.client e)))
    at connected p l h = client_connected w p l h a
    at sent p l h = client_sent w p l h a
    at peer_closed p l h = client_closed w p l h a
    at (received text) p l h = client_received w p text l h a

to_server_cons :
    (c : Client.Exchange) (s : Server.Exchange) (text : List ℕ) (rest : List (List ℕ))
    → text ∷ rest ≡ to_server c s
    → (rest ≡ [])
      × (((text ≡ hello_text) × (s.phase ≡ Server.hello) × (c.hello_posted ≡ true))
          ⊎ ((text ≡ ack_text) × (s.phase ≡ Server.ack) × (c.ack_posted ≡ true)))
to_server_cons c s text rest h = ground arith

module _ (w : World) (p : Port) (on : w.server_left ≡ false) (a : Agree w) where
  server_connected :
      report w.server_port connected ≡ some p
      → Accepted (some (server_set w p (server_on_event w.server connected)))
  unfolding report server_set server_on_event client_complete server_complete
  server_connected h = ground arith

  server_closed :
      report w.server_port peer_closed ≡ some p
      → Accepted (some (server_set w p (server_on_event w.server peer_closed)))
  unfolding report server_set server_on_event client_complete server_complete
  server_closed h = ground arith

  server_sent :
      report w.server_port sent ≡ some p
      → Accepted (some (server_set w p (server_on_event w.server sent)))
  unfolding report server_set server_on_event client_complete server_complete
  server_sent h = ground arith

  server_received :
      (text : List ℕ)
      → report w.server_port (received text) ≡ some p
      → Accepted (some (server_set w p (server_on_event w.server (received text))))
  unfolding report server_set server_on_event on_message client_complete server_complete
  server_received text h =
      let (rest, held, posted, left) = deliver-some w.server_port p text w.server_port.inbox h in
      let (last, kind) = to_server_cons w.client w.server text rest (sym held ∙ a.server_inbox) in
      elim kind [
        | inl (same, phase, due) ↦ rw (same, phase, left, last) (ground arith)
        | inr (same, phase, due) ↦ rw (same, phase, left, last) (ground arith)
      ]

  server_report :
      (e : Event)
      → report w.server_port e ≡ some p
      → Accepted (some (server_set w p (server_on_event w.server e)))
  server_report connected h = server_connected h
  server_report sent h = server_sent h
  server_report peer_closed h = server_closed h
  server_report (received text) h = server_received text h

server_event-Accepted : (w : World) (e : Event) → Agree w → Accepted (step w (server_event e))
unfolding step
server_event-Accepted w e a =
    Accepted-unless _ _
      (λ l. server_see-Accepted w e (report w.server_port e) (λ p h. server_report w p l a e h))

-- In a world in which the two programs agree, every move that can happen is accepted by the program
-- that makes it, and they agree in the world that it leads to.
pub step-Accepted : (w : World) (m : Move) → Agree w → Accepted (step w m)
step-Accepted w (client_event e) a = client_event-Accepted w e a
step-Accepted w client_post a = client_post-Accepted w a
step-Accepted w client_leave a = client_leave-Accepted w a
step-Accepted w (server_event e) a = server_event-Accepted w e a
step-Accepted w server_receive a = server_receive-Accepted w a
step-Accepted w server_post a = server_post-Accepted w a
step-Accepted w server_leave a = server_leave-Accepted w a

initial-Agree : Agree initial
unfolding client_complete server_complete
initial-Agree = ground arith

pub Reach-Agree : {w : World} {n : ℕ} → Reach w n → Agree w
Reach-Agree start = initial-Agree
Reach-Agree (next {w} m h r) = rw h at (step-Accepted w m (Reach-Agree r))

-- However the moves of the two programs and of the connection interleave, no program ever refuses
-- an event or finds its slot in use: a move that can happen ends without an error.
pub Reach-accepted :
    {w : World} {n : ℕ} (m : Move) (r : Outcome World)
    → Reach w n
    → step w m ≡ some r
    → (v : World) × (r ≡ ok v)
Reach-accepted {w} m r reach h = of r (rw h at (step-Accepted w m (Reach-Agree reach)))
  where
    of : (r : Outcome World) → Accepted (some r) → (v : World) × (r ≡ ok v)
    of (ok v) a = (v, refl)
    of (err e) a = absurd a
    of panic a = absurd a
    of unfinished a = absurd a
