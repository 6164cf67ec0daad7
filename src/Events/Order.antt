-- ===== src/Events/Order.antt =====
-- Where any two accepted events may be swapped, any rearrangement of a list of events may be made.
use mathlib.Core.List.{Permᴰ}
use rdma_prototype.Base.{◌≡◌, sym, List, [], ◌∷◌, arith}
use rdma_prototype.State.{Event}
use rdma_prototype.Outcome.{Outcome, ok}
use rdma_prototype.Events.{for_events}

module _ {X : Type 0} (on_event : X → Event → Outcome X) where
  pub nil_ok : (s t : X) → for_events on_event s [] ≡ ok t → s ≡ t
  unfolding for_events
  nil_ok s t h = ground arith

  pub for_events-cons :
      (s t u : X) (e : Event) (es : List Event)
      → on_event s e ≡ ok t
      → for_events on_event t es ≡ ok u
      → for_events on_event s (e ∷ es) ≡ ok u
  unfolding for_events
  for_events-cons s t u e es h k = ground arith

  -- An accepted list begins with an accepted event.
  pub for_events-uncons :
      (s u : X) (e : Event) (es : List Event)
      → for_events on_event s (e ∷ es) ≡ ok u
      → (t : X) × (on_event s e ≡ ok t) × (for_events on_event t es ≡ ok u)
  unfolding for_events
  for_events-uncons s u e es h = ground arith

  module _
      (swap : (s a b : X) (e f : Event)
        → on_event s e ≡ ok a
        → on_event a f ≡ ok b
        → for_events on_event s (f ∷ e ∷ []) ≡ ok b) where
    swap-head :
        (s u : X) (e f : Event) (es : List Event)
        → for_events on_event s (e ∷ f ∷ es) ≡ ok u
        → for_events on_event s (f ∷ e ∷ es) ≡ ok u
    swap-head s u e f es h =
        let (a, first, rest) = for_events-uncons s u e (f ∷ es) h in
        let (b, second, last) = for_events-uncons a u f es rest in
        let both = swap s a b e f first second in
        let (c, first', rest') = for_events-uncons s b f (e ∷ []) both in
        let (d, second', last') = for_events-uncons c b e [] rest' in
        for_events-cons s c u f (e ∷ es) first'
          (for_events-cons c d u e es second' (rw (nil_ok d b last') last))

    pub for_events-perm :
        {es fs : List Event} (s u : X)
        → Permᴰ es fs
        → for_events on_event s es ≡ ok u
        → for_events on_event s fs ≡ ok u
    for_events-perm s u Permᴰ.nil h = h
    for_events-perm s u (Permᴰ.cons {a = e} {b = f} {l₁ = es} {l₂ = fs} same p) h =
        let (t, first, rest) = for_events-uncons s u e es h in
        let first' : on_event s f ≡ ok t = rw (sym same) first in
        for_events-cons s t u f fs first' (for_events-perm t u p rest)
    for_events-perm s u (Permᴰ.swap {a = e} {b = f} {l = es} p q) h =
        rw (sym p, sym q) (swap-head s u e f es h)
    for_events-perm s u (Permᴰ.trans p q) h = for_events-perm s u q (for_events-perm s u p h)
