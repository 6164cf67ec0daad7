-- ===== src/Transport/Connection/Polling.antt =====
-- Proofs about `poll`: the events that it reports against the flags of the slots.
use rdma_prototype.Base.{
  ℕ, ◌+◌, ◌≤◌, ◌≡◌, List, [], ◌∷◌, ◌++◌, Bool, true, false, some, none, arith, length,
  length-take-le, Option,
}
use rdma_prototype.State.{Event, connected, received, sent, peer_closed}
use rdma_prototype.Outcome.{Outcome, ok, err, panic, unfinished, Returns}
use rdma_prototype.Ffi.{Ptr, null, Completion}
use rdma_prototype.Machine.{Machine, At, Env, Exec, pure, resume, ◌>>=◌}
use rdma_prototype.Transport.Poll.{poll_cq}
use rdma_prototype.Transport.Slot.{Bytes}
use rdma_prototype.Transport.Connection.{
  Connection, ensure_open, both, poll, poll_tx, rx_done, poll_rx, poll_connection, set_rx_pending,
  set_tx_pending,
}

abbrev pub as_number : Bool → ℕ
as_number true = 1
as_number false = 0

-- How many events report a completed send, a completed receive, and a change of the connection.
abbrev pub sents : List Event → ℕ
sents [] = 0
sents (sent ∷ es) = 1 + sents es
sents (_ ∷ es) = sents es

abbrev pub receipts : List Event → ℕ
receipts [] = 0
receipts (received text ∷ es) = 1 + receipts es
receipts (_ ∷ es) = receipts es

-- Every received message fits its bound.
abbrev pub Fit : ℕ → List Event → Type 0
Fit n [] = Unit
Fit n (received text ∷ es) = (length text ≤ n) × Fit n es
Fit n (_ ∷ es) = Fit n es

-- Only the flags of the two slots differ.
abbrev pub SameButPending : Connection → Connection → Type 0
SameButPending c d = d ≡ set_rx_pending d.rx.pending (set_tx_pending d.tx.pending c)

abbrev pub capacity : Option Bytes → ℕ
capacity none = 0
capacity (some b) = b.len

abbrev address : Option Bytes → Ptr
address none = null
address (some b) = b.ptr

sents-append : (es fs : List Event) → sents (es ++ fs) ≡ sents es + sents fs
sents-append [] fs = omega arith
sents-append (sent ∷ es) fs = omega (arith, sents-append es fs)
sents-append (_ ∷ es) fs = sents-append es fs

receipts-append : (es fs : List Event) → receipts (es ++ fs) ≡ receipts es + receipts fs
receipts-append [] fs = omega arith
receipts-append (received text ∷ es) fs = omega (arith, receipts-append es fs)
receipts-append (_ ∷ es) fs = receipts-append es fs

Fit-append : (n : ℕ) (es fs : List Event) → Fit n es → Fit n fs → Fit n (es ++ fs)
Fit-append n [] fs h k = k
Fit-append n (received text ∷ es) fs h k = (h.0, Fit-append n es fs h.1 k)
Fit-append n (connected ∷ es) fs h k = Fit-append n es fs h k
Fit-append n (sent ∷ es) fs h k = Fit-append n es fs h k
Fit-append n (peer_closed ∷ es) fs h k = Fit-append n es fs h k

ensure_open-Returns : (c : Connection) → Returns (ensure_open c)
unfolding ensure_open
ensure_open-Returns c = ground arith

module _ (M : Machine) where
  -- What a poll has done, by how it ended.
  abbrev pub Polls : At M Connection → Outcome (List Event) × At M Connection → Type 0
  Polls s (ok events, t) =
      SameButPending s.self t.self
      × (sents events + as_number t.self.tx.pending ≡ as_number s.self.tx.pending)
      × (receipts events + as_number t.self.rx.pending ≡ as_number s.self.rx.pending)
      × Fit (capacity s.self.rx.bytes) events
  Polls s (err e, t) =
      SameButPending s.self t.self
      × (as_number t.self.tx.pending ≤ as_number s.self.tx.pending)
      × (as_number t.self.rx.pending ≤ as_number s.self.rx.pending)
  Polls s (panic, t) = s.self.rx.bytes ≡ none
  Polls s (unfinished, t) = ⊥

  poll_tx-Polls : (s : At M Connection) → Polls s (poll_tx M s)
  unfolding poll_tx
  poll_tx-Polls s = ground arith

  rx_done-Polls : (done : Option Completion) (s : At M Connection) → Polls s (rx_done M done s)
  unfolding rx_done
  rx_done-Polls none s = ground arith
  rx_done-Polls (some done) s =
      ground (arith, length-take-le done.len (M.load (address s.self.rx.bytes) s.env.world))

  poll_cq-Returns : (q : Ptr) (e : Env M) → Returns (poll_cq M q e).0
  unfolding poll_cq
  poll_cq-Returns q e = ground arith

  rx_resume-Polls :
      (s : At M Connection) (r : Outcome (Option Completion)) (e : Env M)
      → Returns r
      → Polls s (resume r (rx_done M) (record { self = s.self; env = e }))
  rx_resume-Polls s (ok done) e h = rx_done-Polls done (record { self = s.self; env = e })
  rx_resume-Polls s (err x) e h = ground arith
  rx_resume-Polls s panic e h = absurd h
  rx_resume-Polls s unfinished e h = absurd h

  poll_rx-Polls : (s : At M Connection) → Polls s (poll_rx M s)
  unfolding poll_rx
  poll_rx-Polls s =
      let (r, e) = poll_cq M s.self.rx_cq s.env in
      rx_resume-Polls s r e (poll_cq-Returns s.self.rx_cq s.env)

  poll_connection-Polls : (s : At M Connection) → Polls s (poll_connection M s)
  unfolding poll_connection
  poll_connection-Polls s = ground arith

  Polls-pure :
      (first : List Event) (s t : At M Connection) (r : Outcome (List Event)) (u : At M Connection)
      → Polls s (ok first, t)
      → Polls t (r, u)
      → Polls s (resume r (λ second. pure (first ++ second)) u)
  Polls-pure first s t (ok second) u h k = ground (
    arith,
    sents-append first second,
    receipts-append first second,
    Fit-append (capacity s.self.rx.bytes) first second,
  )
  Polls-pure first s t (err e) u h k = ground arith
  Polls-pure first s t panic u h k = ground arith
  Polls-pure first s t unfinished u h k = absurd k

  -- Two parts in a row.
  Polls-resume :
      (s : At M Connection) (n : Exec (At M Connection) (List Event))
      → ((t : At M Connection) → Polls t (n t))
      → (r : Outcome (List Event)) (t : At M Connection) → Polls s (r, t)
      → Polls s (resume r (λ first. n >>= λ second. pure (first ++ second)) t)
  Polls-resume s n hn (err e) t h = h
  Polls-resume s n hn panic t h = h
  Polls-resume s n hn unfinished t h = h
  Polls-resume s n hn (ok events) t h = Polls-pure events s t (n t).0 (n t).1 h (hn t)

  both-Polls :
      (m n : Exec (At M Connection) (List Event))
      → ((s : At M Connection) → Polls s (m s))
      → ((s : At M Connection) → Polls s (n s))
      → (s : At M Connection) → Polls s (both m n s)
  both-Polls m n hm hn s = Polls-resume s n hn (m s).0 (m s).1 (hm s)

  parts-Polls :
      (s : At M Connection) → Polls s (both (poll_tx M) (both (poll_rx M) (poll_connection M)) s)
  parts-Polls =
      both-Polls (poll_tx M) (both (poll_rx M) (poll_connection M)) poll_tx-Polls
        (both-Polls (poll_rx M) (poll_connection M) poll_rx-Polls poll_connection-Polls)

  open-Polls :
      (s : At M Connection) (r : Outcome Unit)
      → Returns r
      → Polls s (resume r (λ _. both (poll_tx M) (both (poll_rx M) (poll_connection M))) s)
  open-Polls s (ok u) h = parts-Polls s
  open-Polls s (err x) h = ground arith
  open-Polls s panic h = absurd h
  open-Polls s unfinished h = absurd h

  -- What a poll reports is what it clears: each completed send is one that was in flight, and is
  -- in flight no more, and so for the receive. Nothing else of the connection changes. A received
  -- message fits the receive buffer. On an error no flag is raised, and nothing else changes. A
  -- poll panics only where the receive buffer is gone, and it always comes to its end.
  pub poll-Polls : (s : At M Connection) → Polls s (poll M s)
  unfolding poll
  poll-Polls s = open-Polls s (ensure_open s.self) (ensure_open-Returns s.self)
