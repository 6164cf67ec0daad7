-- ===== src/Events.antt =====
-- The loop `for event in io.poll()? { state.on_event(event)?; }` of both applications.
pub mod Order
use rdma_prototype.Base.{List, [], ◌∷◌}
use rdma_prototype.State.{Event}
use rdma_prototype.Outcome.{Outcome, ok, and_then, and_then-Returns, Returns}

module _ {X : Type 0} where
  unfoldable pub for_events : (X → Event → Outcome X) → X → List Event → Outcome X
  for_events on_event state [] = ok state
  for_events on_event state (event ∷ events) =
      and_then (on_event state event) (λ next. for_events on_event next events)

  pub for_events-Returns :
      (on_event : X → Event → Outcome X)
      → ((s : X) (e : Event) → Returns (on_event s e))
      → (s : X) (es : List Event) → Returns (for_events on_event s es)
  unfolding for_events
  for_events-Returns on_event h s [] = tt
  for_events-Returns on_event h s (e ∷ es) =
      and_then-Returns (on_event s e) (λ next. for_events on_event next es) (h s e)
        (λ next. for_events-Returns on_event h next es)
