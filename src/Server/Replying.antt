-- ===== src/Server/Replying.antt =====
-- src/bin/server.rs: a round of `serve` as moves of the server's state machine.
use rdma_prototype.Base.{
  ◌≡◌, refl, sym, ap, ◌∙◌, ◌+◌, Bool, true, false, not, List, [], ◌∷◌, ◌++◌, Option, none, some,
  if◌then◌else◌, inl, inr, Bool-cases,
}
use rdma_prototype.State.{Event}
use rdma_prototype.State.Server.{Exchange, ack}
use rdma_prototype.Outcome.{Outcome, ok, err, panic, unfinished}
use rdma_prototype.Machine.{Machine, At, Exec, pure, raise, resume, ◌>>=◌}
use rdma_prototype.Machine.Logic.{Leaves, Leaves-bind, Leaves-map}
use rdma_prototype.Transport.Connection.{Connection, post_recv, send, poll}
use rdma_prototype.Transport.Connection.Worlds.{poll-Runs}
use rdma_prototype.Server.Exchange.{complete, world_text}
use rdma_prototype.Server.Conversation.{Item, replied, Run}
use rdma_prototype.Server.Loop.{
  on_events, may_reply, receive_ready, send_world, pause, reply_round, advance, round,
}
use rdma_prototype.Server.Replies.{
  replies, texts, accepted_sends, Same, Same-Steps, post_recv-Same, send-accepted,
}
use rdma_prototype.Server.Serving.{
  Served, polled, said, held, readied, slept, Served-Run, Served-accepted,
}

module _ (M : Machine) where
  module _ (s : At M Connection) where
    -- The server came here from `s` by calls that made its exchange what it is.
    abbrev pub Replied : Exchange → At M Connection → Type 0
    Replied state t = (items : List Item) × Served M s state items t

    -- A run of the state machine with one reply for each send that was accepted.
    abbrev pub RunSoFar : At M Connection → Type 0
    RunSoFar t =
        (state : Exchange) × (items : List Item) × Run state items
        × (accepted_sends M t.env.trace ≡ replies items + accepted_sends M s.env.trace)

    pub so_far : (state : Exchange) (t : At M Connection) → Replied state t → RunSoFar t
    so_far state t (items, served) = (state, items, Served-Run served, Served-accepted served)

    unsent_so_far :
        (state : Exchange) (t u : At M Connection)
        → Replied state t
        → Same M t.env u.env
        → RunSoFar u
    unsent_so_far state t u h same =
        let (state, items, run, count) = so_far state t h in (state, items, run, same ∙ count)

    -- After a round: on it goes, or the exchange is complete.
    abbrev pub Rounded : Option Exchange → At M Connection → Type 0
    Rounded none t = (state : Exchange) × (complete state ≡ true) × Replied state t
    Rounded (some after) t = Replied after t

    pause-Rounded :
        (state : Exchange) (t : At M Connection)
        → Replied state t
        → Leaves Rounded RunSoFar (pause M state t)
    unfolding pause
    pause-Rounded state t (items, served) = (items, slept served)

    -- An action that submits no send, with its own answer.
    Leaves-RunSoFar :
        {A : Type 0} (state : Exchange) (m : Exec (At M Connection) A) (t : At M Connection)
        → Replied state t
        → Same M t.env (m t).1.env
        → Leaves (λ a u. m t ≡ (ok a, u)) RunSoFar (m t)
    Leaves-RunSoFar {A = A} state m t h same = go (m t).0 (m t).1 refl same
      where
        go :
            (r : Outcome A) (u : At M Connection)
            → m t ≡ (r, u)
            → Same M t.env u.env
            → Leaves (λ a u. m t ≡ (ok a, u)) RunSoFar (r, u)
        go (ok a) u e k = e
        go (err x) u e k = unsent_so_far state t u h k
        go panic u e k = unsent_so_far state t u h k
        go unfinished u e k = unsent_so_far state t u h k

    send_world-Replied :
        (state : Exchange) (t : At M Connection)
        → may_reply state ≡ true
        → Replied state t
        → Leaves Replied RunSoFar (send_world M state t)
    unfolding send_world
    send_world-Replied state t due (items, served) =
        go (send M world_text t).0 (send M world_text t).1 refl (send-accepted M world_text t)
      where
        go :
            (r : Outcome Bool) (u : At M Connection)
            → send M world_text t ≡ (r, u)
            → Leaves
                (λ yes u.
                  accepted_sends M u.env.trace
                  ≡ (if yes then 1 else 0) + accepted_sends M t.env.trace)
                (λ u. Same M t.env u.env)
                (r, u)
            → Leaves Replied RunSoFar (
                resume r
                  (λ accepted. pure (if accepted then record state { phase = ack } else state))
                  u)
        go (ok true) u e k = (items ++ replied ∷ [], said u due e served)
        go (ok false) u e k = (items, held u e served)
        go (err x) u e k = unsent_so_far state t u (items, served) k
        go panic u e k = unsent_so_far state t u (items, served) k
        go unfinished u e k = unsent_so_far state t u (items, served) k

    receive_ready-Replied :
        (state : Exchange) (t : At M Connection)
        → Replied state t
        → Leaves (λ _ u. Replied state u) RunSoFar (receive_ready M t)
    unfolding receive_ready
    receive_ready-Replied state t (items, served) = go t.self.rx.pending
      where
        go :
            (waiting : Bool)
            → Leaves
                (λ _ u. Replied state u)
                RunSoFar
                ((if waiting then pure true else post_recv M) t)
        go true = (items, served)
        go false =
            Leaves-map (λ done u. post_recv M t ≡ (ok done, u)) (λ _ u. Replied state u) RunSoFar
              (post_recv M t).0 (post_recv M t).1
              (Leaves-RunSoFar state (post_recv M) t (items, served) (post_recv-Same M t))
              (λ done u e. (items, readied done u e served))

    reply_round-Rounded :
        (state : Exchange) (t : At M Connection)
        → may_reply state ≡ true
        → Replied state t
        → Leaves Rounded RunSoFar (reply_round M state t)
    unfolding reply_round
    reply_round-Rounded state t due h =
        Leaves-bind (λ _ u. Replied state u) Rounded RunSoFar (receive_ready M)
          (λ ready. if not ready then pure (some state) else (send_world M state >>= pause M)) t
          (receive_ready-Replied state t h) go
      where
        go :
            (ready : Bool) (u : At M Connection)
            → Replied state u
            → Leaves Rounded RunSoFar
                ((if not ready then pure (some state) else (send_world M state >>= pause M)) u)
        go false u k = k
        go true u k =
            Leaves-bind Replied Rounded RunSoFar (send_world M state) (pause M) u
              (send_world-Replied state u due k) pause-Rounded

    advance-Rounded :
        (state : Exchange) (t : At M Connection)
        → Replied state t
        → Leaves Rounded RunSoFar (advance M state t)
    unfolding advance
    advance-Rounded state t h = elim (Bool-cases (complete state)) [
      | inl finished ↦ rw finished (state, finished, h)
      | inr going ↦ rw going (elim (Bool-cases (may_reply state)) [
        | inl due ↦ rw due (reply_round-Rounded state t due h)
        | inr idle ↦ rw idle (pause-Rounded state t h)
      ])
    ]

    polled_so_far :
        (events : List Event) (state : Exchange) (t u : At M Connection)
        → poll M t ≡ (ok events, u)
        → Replied state t
        → RunSoFar u
    polled_so_far events state t u e h =
        unsent_so_far state t u h
          (ap (λ r. accepted_sends M r.1.env.trace) (sym e) ∙ poll-Runs (Same-Steps M) t)

    taken-Rounded :
        (state : Exchange) (events : List Event) (r : Outcome Exchange) (t u : At M Connection)
        → on_events state events ≡ r
        → poll M t ≡ (ok events, u)
        → Replied state t
        → Leaves Rounded RunSoFar (resume r (advance M) u)
    taken-Rounded state events (ok next) t u h e (items, served) =
        advance-Rounded next u (items ++ texts events, polled next events u e h served)
    taken-Rounded state events (err x) t u h e k = polled_so_far events state t u e k
    taken-Rounded state events panic t u h e k = polled_so_far events state t u e k
    taken-Rounded state events unfinished t u h e k = polled_so_far events state t u e k

    pub round-Rounded :
        (state : Exchange) (t : At M Connection)
        → Replied state t
        → Leaves Rounded RunSoFar (round M state t)
    unfolding round
    round-Rounded state t h =
        Leaves-bind (λ events u. poll M t ≡ (ok events, u)) Rounded RunSoFar (poll M)
          (λ events. raise (on_events state events) >>= advance M) t
          (Leaves-RunSoFar state (poll M) t h (poll-Runs (Same-Steps M) t))
          (λ events u e. taken-Rounded state events (on_events state events) t u refl e h)
