-- ===== src/Server/Pace.antt =====
-- src/bin/server.rs: a round of `serve` takes a millisecond, or an EAGAIN of the provider.
use rdma_prototype.Base.{
  ℕ, ◌+◌, ◌≤◌, ◌<◌, ◌⊎◌, inl, inr, Bool, true, false, not, List, Option, none, some, arith,
  if◌then◌else◌,
}
use rdma_prototype.State.{Event}
use rdma_prototype.State.Server.{Exchange, ack}
use rdma_prototype.Outcome.{Outcome, ok, err, panic, unfinished, Returns}
use rdma_prototype.Machine.{Machine, At, pure, raise, resume, ◌>>=◌}
use rdma_prototype.Machine.Logic.{Finishes, Finishes-bind, Finishes-if}
use rdma_prototype.Machine.Clock.{
  Clocked, Later-Steps, Later-Posts, refusals, Grown-Steps, Grown-Posts,
}
use rdma_prototype.Transport.Listener.{millisecond}
use rdma_prototype.Transport.Connection.{Connection, post_recv, send, poll}
use rdma_prototype.Transport.Connection.Post.{PostsRecv, post_recv-PostsRecv, Sends, send-Sends}
use rdma_prototype.Transport.Connection.Polling.{Polls, poll-Polls}
use rdma_prototype.Transport.Connection.Worlds.{poll-Runs, post_recv-Runs, send-Runs}
use rdma_prototype.Server.Exchange.{complete, world_text}
use rdma_prototype.Server.Accepting.{on_events-Returns}
use rdma_prototype.Server.Loop.{
  on_events, may_reply, receive_ready, send_world, pause, reply_round, advance, round,
}

module _ {M : Machine} (clock : Clocked M) where
  abbrev time : At M Connection → ℕ
  time s = clock.time s.env.world

  abbrev refused : At M Connection → ℕ
  refused s = refusals M s.env.trace

  -- No time and no EAGAIN was lost.
  abbrev After : At M Connection → At M Connection → Type 0
  After s t = (time s ≤ time t) × (refused s ≤ refused t)

  poll-After : (s : At M Connection) → Finishes (λ _ t. After s t) (poll M s)
  poll-After s =
      go (poll M s).0 (poll M s).1 (poll-Polls M s) (poll-Runs (Later-Steps clock) s)
        (poll-Runs (Grown-Steps M) s)
    where
      go :
          (r : Outcome (List Event)) (t : At M Connection)
          → Polls M s (r, t)
          → time s ≤ time t
          → refused s ≤ refused t
          → Finishes (λ _ t. After s t) (r, t)
      go (ok events) t h p q = (p, q)
      go (err e) t h p q = tt
      go panic t h p q = tt
      go unfinished t h p q = h

  -- EAGAIN is answered once more.
  abbrev Readied : At M Connection → Bool → At M Connection → Type 0
  Readied s true t = After s t
  Readied s false t = (time s ≤ time t) × (refused s < refused t)

  post_recv-Readied : (s : At M Connection) → Finishes (Readied s) (post_recv M s)
  post_recv-Readied s =
      go (post_recv M s).0 (post_recv M s).1 (post_recv-PostsRecv M s)
        (post_recv-Runs (Later-Steps clock) (Later-Posts clock) s)
        (post_recv-Runs (Grown-Steps M) (Grown-Posts M) s)
    where
      go :
          (r : Outcome Bool) (t : At M Connection)
          → PostsRecv M s (r, t)
          → time s ≤ time t
          → refused s ≤ refused t
          → Finishes (Readied s) (r, t)
      go (ok true) t h p q = (p, q)
      go (ok false) t h p q =
          let (b, there, again, world, trace) = h.3 in (p, rw trace (rw again (omega arith)))
      go (err e) t h p q = tt
      go panic t h p q = tt
      go unfinished t h p q = h

  send-After : (text : List ℕ) (s : At M Connection) → Finishes (λ _ t. After s t) (send M text s)
  send-After text s =
      go (send M text s).0 (send M text s).1 (send-Sends M text s)
        (send-Runs (Later-Steps clock) (Later-Posts clock) text s)
        (send-Runs (Grown-Steps M) (Grown-Posts M) text s)
    where
      go :
          (r : Outcome Bool) (t : At M Connection)
          → Sends M text s (r, t)
          → time s ≤ time t
          → refused s ≤ refused t
          → Finishes (λ _ t. After s t) (r, t)
      go (ok b) t h p q = (p, q)
      go (err e) t h p q = tt
      go panic t h p q = tt
      go unfinished t h p q = h

  receive_ready-Readied : (s : At M Connection) → Finishes (Readied s) (receive_ready M s)
  unfolding receive_ready
  receive_ready-Readied s =
      Finishes-if (Readied s) s.self.rx.pending (pure true) (post_recv M) s (λ waiting. omega arith)
        (λ idle. post_recv-Readied s)

  send_world-After :
      (state : Exchange) (s : At M Connection) → Finishes (λ _ t. After s t) (send_world M state s)
  unfolding send_world
  send_world-After state s =
      Finishes-bind (λ _ t. After s t) (λ _ t. After s t) (send M world_text)
        (λ accepted. pure (if accepted then record state { phase = ack } else state)) s
        (send-After world_text s) (λ accepted t h. h)

  -- A round that does not end the loop takes a millisecond, or an EAGAIN.
  abbrev pub Moved : ℕ → ℕ → Option Exchange → At M Connection → Type 0
  Moved lo seen none t = Unit
  Moved lo seen (some after) t =
      ((lo + millisecond ≤ time t) × (seen ≤ refused t)) ⊎ ((lo ≤ time t) × (seen < refused t))

  pause-Moved :
      (lo seen : ℕ) (state : Exchange) (s : At M Connection)
      → lo ≤ time s
      → seen ≤ refused s
      → Finishes (Moved lo seen) (pause M state s)
  unfolding pause
  pause-Moved lo seen state s p q =
      let later = clock.sleep_later millisecond s.env.world in inl (omega arith, omega arith)

  reply_round-Moved :
      (lo seen : ℕ) (state : Exchange) (s : At M Connection)
      → lo ≤ time s
      → seen ≤ refused s
      → Finishes (Moved lo seen) (reply_round M state s)
  unfolding reply_round
  reply_round-Moved lo seen state s p q =
      Finishes-bind (Readied s) (Moved lo seen) (receive_ready M)
        (λ ready. if not ready then pure (some state) else (send_world M state >>= pause M)) s
        (receive_ready-Readied s) go
    where
      go :
          (ready : Bool) (t : At M Connection)
          → Readied s ready t
          → Finishes
              (Moved lo seen)
              ((if not ready then pure (some state) else (send_world M state >>= pause M)) t)
      go false t h = inr (omega arith, omega arith)
      go true t h =
          Finishes-bind (λ _ u. After t u) (Moved lo seen) (send_world M state) (pause M) t
            (send_world-After state t)
            (λ after u k. pause-Moved lo seen after u (omega arith) (omega arith))

  advance-Moved :
      (lo seen : ℕ) (state : Exchange) (s : At M Connection)
      → lo ≤ time s
      → seen ≤ refused s
      → Finishes (Moved lo seen) (advance M state s)
  unfolding advance
  advance-Moved lo seen state s p q =
      Finishes-if (Moved lo seen) (complete state) (pure none)
        (if may_reply state then reply_round M state else pause M state) s (λ finished. tt)
        (λ unfinished_yet.
          Finishes-if (Moved lo seen) (may_reply state) (reply_round M state) (pause M state) s
            (λ due. reply_round-Moved lo seen state s p q)
            (λ not_due. pause-Moved lo seen state s p q))

  accepted-Moved :
      (lo seen : ℕ) (r : Outcome Exchange) (s : At M Connection)
      → Returns r
      → lo ≤ time s
      → seen ≤ refused s
      → Finishes (Moved lo seen) (resume r (advance M) s)
  accepted-Moved lo seen (ok next) s k p q = advance-Moved lo seen next s p q
  accepted-Moved lo seen (err e) s k p q = tt
  accepted-Moved lo seen panic s k p q = tt
  accepted-Moved lo seen unfinished s k p q = absurd k

  pub round-Moved :
      (lo seen : ℕ) (state : Exchange) (s : At M Connection)
      → lo ≤ time s
      → seen ≤ refused s
      → Finishes (Moved lo seen) (round M state s)
  unfolding round
  round-Moved lo seen state s p q =
      Finishes-bind (λ _ t. After s t) (Moved lo seen) (poll M)
        (λ events. raise (on_events state events) >>= advance M) s (poll-After s)
        (λ events t h.
          accepted-Moved lo seen (on_events state events) t (on_events-Returns state events)
            (omega arith) (omega arith))
