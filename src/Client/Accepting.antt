-- ===== src/Client/Accepting.antt =====
-- src/bin/clients.rs: the `for` loop over the events of a poll.
use rdma_prototype.Base.{List, arith}
use rdma_prototype.State.{Event}
use rdma_prototype.State.Client.{Exchange}
use rdma_prototype.Outcome.{Returns}
use rdma_prototype.Events.{for_events-Returns}
use rdma_prototype.Client.Exchange.{on_event}
use rdma_prototype.Client.Loop.{on_events}

on_event-Returns : (s : Exchange) (e : Event) → Returns (on_event s e)
unfolding on_event
on_event-Returns s e = ground arith

pub on_events-Returns : (s : Exchange) (es : List Event) → Returns (on_events s es)
unfolding on_events
on_events-Returns s es = for_events-Returns on_event on_event-Returns s es
