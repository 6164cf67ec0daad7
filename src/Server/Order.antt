-- ===== src/Server/Order.antt =====
-- The server takes completions and connection events in any order.
use mathlib.Core.List.{Permᴰ}
use rdma_prototype.Base.{◌≡◌, List, [], ◌∷◌, arith}
use rdma_prototype.State.{Event}
use rdma_prototype.State.Server.{Exchange}
use rdma_prototype.Outcome.{ok}
use rdma_prototype.Events.{for_events}
use rdma_prototype.Events.Order.{for_events-perm}
use rdma_prototype.Server.Exchange.{on_event}
use rdma_prototype.Server.Loop.{on_events}

swap :
    (s a b : Exchange) (e f : Event)
    → on_event s e ≡ ok a
    → on_event a f ≡ ok b
    → for_events on_event s (f ∷ e ∷ []) ≡ ok b
unfolding for_events on_event
swap s a b e f h k = ground arith

-- If the server accepts a list of events, it accepts every rearrangement of it and ends in the
-- same state: completions, messages and connection events may be observed in any order.
pub serve_events-perm :
    {es fs : List Event} (s u : Exchange)
    → Permᴰ es fs
    → on_events s es ≡ ok u
    → on_events s fs ≡ ok u
unfolding on_events
serve_events-perm s u p h = for_events-perm on_event swap s u p h
